-- ===== src/Traversal/Lifecycle/Reports.antt =====
-- What each method of TraversalCheckpoint in domain/traversal.py that moves one target asks for: its
-- row of the lifecycle table, the bytes and the time that it reports, and the error or the output
-- that the target notes.
use tarkka.Prelude.{ℕ, none, some, Text, Float, strip}
use tarkka.Traversal.Lifecycle.{Kind, Report}

abbrev pub start : Report
start = record {
  kind = Kind.start;
  bytes = 0;
  note = λ n. record { last_error = none; sha256 = none; observation_id = none };
  time = none;
}

abbrev pub follow : Report
follow = record { kind = Kind.follow; bytes = 0; note = λ n. n; time = none }

abbrev pub receive : ℕ → Report
receive bytes = record { kind = Kind.receive; bytes = bytes; note = λ n. n; time = none }

abbrev pub finalize : Text → ℕ → Float → Report
finalize sha256 observation_id time = record {
  kind = Kind.finalize;
  bytes = 0;
  note = λ n. record {
    last_error = n.last_error;
    sha256 = some sha256;
    observation_id = some observation_id;
  };
  time = some time;
}

abbrev pub commit : Float → Report
commit time = record { kind = Kind.commit; bytes = 0; note = λ n. n; time = some time }

abbrev pub complete : ℕ → Float → Report
complete bytes time = record {
  kind = Kind.complete;
  bytes = bytes;
  note = λ n. record n { last_error = none };
  time = some time;
}

abbrev pub fail : Text → Float → ℕ → Report
fail error time bytes = record {
  kind = Kind.fail;
  bytes = bytes;
  note = λ n. record n { last_error = some (strip error) };
  time = some time;
}

abbrev pub requeue : Report
requeue = record {
  kind = Kind.requeue;
  bytes = 0;
  note = λ n. record n { last_error = none };
  time = none;
}

abbrev pub skip : Text → Report
skip reason = record {
  kind = Kind.skip;
  bytes = 0;
  note = λ n. record n { last_error = some (strip reason) };
  time = none;
}
