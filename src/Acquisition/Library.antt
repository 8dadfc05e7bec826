-- ===== src/Acquisition/Library.antt =====
-- What the code uses of urllib.parse, ipaddress and the IDNA codec, as a parameter of the model.
use tarkka.Prelude.{Option, Bool, Text, Float}

-- The parts of `urlsplit(value)` that are read, its properties included.
pub record SplitResult : Type 0 where
  pub scheme : Text
  pub netloc : Text
  pub path : Text
  pub query : Text
  pub fragment : Text
  pub hostname : Option Text
  pub username : Option Text
  pub password : Option Text

-- The properties of `ipaddress.ip_address(value)` that are read.
pub record IpAddress : Type 0 where
  pub is_multicast : Bool
  pub is_unspecified : Bool
  pub is_link_local : Bool
  pub is_reserved : Bool
  pub is_global : Bool
  pub is_private : Bool
  pub is_loopback : Bool

-- `none` is the ValueError, and for the codec the UnicodeError, that the call raises.
pub record Library : Type 0 where
  pub urlsplit : Text → Option SplitResult
  -- urlunsplit((scheme, netloc, path, query, fragment))
  pub urlunsplit : Text → Text → Text → Text → Text → Text
  pub ip_address : Text → Option IpAddress
  pub encode_idna : Text → Option Text
  -- float(value)
  pub parse_float : Text → Option Float
