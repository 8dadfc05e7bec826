-- ===== src/Tests/Samples.antt =====
-- An environment, a policy and some checkpoints to run the model on.
use tarkka.Prelude.{
  drop, Float, ℕ, false, Option, none, some, List, [], ◌∷◌, ◌++◌, length, Result, ok, ◌>>◌, require,
  Text, codes, starts_with, list_eq, nat_eq,
}
use tarkka.Acquisition.Library.{Library, SplitResult}
use tarkka.Acquisition.Policy.{ResourceAcquisitionPolicy}
use tarkka.Traversal.Target.{TraversalTarget, TraversalStatus}
use tarkka.Traversal.Checkpoint.{TraversalCheckpoint}
use tarkka.Traversal.Frontier.{Environment}

-- Every text splits into one host, with what stands behind its 23 characters as the path.
abbrev pub split_sample : Text → Option SplitResult
split_sample uri = some (record {
  scheme = codes "https";
  netloc = codes "www.example.com";
  path = drop 23 uri;
  query = [];
  fragment = [];
  hostname = some (codes "www.example.com");
  username = none;
  password = none;
})

abbrev pub library : Library
library = record {
  urlsplit = split_sample;
  urlunsplit = λ scheme netloc path query fragment. codes "https://www.example.com" ++ path;
  ip_address = λ host. none;
  encode_idna = λ host. some host;
  parse_float = λ value. some (Float.finite (length value));
}

abbrev pub normalize_sample : Text → Result Text
normalize_sample uri = require (starts_with (codes "http") uri) "not an HTTP URI" >> ok uri

abbrev pub environment : Environment
environment = record {
  library = library;
  uris = record { normalize = normalize_sample };
  uuid5_url = length;
  uuid_text = λ id. [];
}

abbrev pub policy : ResourceAcquisitionPolicy
policy = record {
  max_depth = 2;
  max_requests = 10;
  max_bytes = 1000;
  max_retries = 1;
  max_redirects = 5;
  max_elapsed_seconds = some 300;
  min_request_interval_seconds = 0;
  allowed_schemes = codes "https" ∷ [];
  allowed_domains = codes "example.com" ∷ [];
  allow_private_addresses = false;
}

abbrev pub target_in : TraversalStatus → ℕ → ℕ → TraversalTarget
target_in status attempts bytes = record {
  target_id = 7;
  uri = codes "http://a";
  depth = 1;
  status = status;
  attempts = attempts;
  bytes_acquired = bytes;
  discovery_link_ids = [];
  parent_target_ids = [];
  last_error = none;
  final_artifact_sha256 = none;
  final_observation_id = none;
}

abbrev pub checkpoint_of : List TraversalTarget → ℕ → ℕ → TraversalCheckpoint
checkpoint_of targets requests bytes = record {
  checkpoint_id = 1;
  targets = targets;
  budget = record { requests_used = requests; bytes_used = bytes; elapsed_seconds = 5 };
}
