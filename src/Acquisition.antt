-- ===== src/Acquisition.antt =====
-- The acquisition policy and budget of domain/resource_acquisition.py. `Names` has the scheme and
-- domain normalizers, `Policy` the validated policy and `Budget` the counters and the admission test.
pub mod Library
pub mod Names
pub mod Policy
pub mod Budget
