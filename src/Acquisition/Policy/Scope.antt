-- ===== src/Acquisition/Policy/Scope.antt =====
-- What `allows_uri` lets through: the fail-closed scope of the network.
use tarkka.Prelude.{
  ◌≡◌, refl, Bool, true, Option, none, some, List, [], ◌∷◌, arith, inl, inr, Bool-cases, any,
  Result, ok, err, contains, list_eq, nat_eq, Text, ascii_lower, map, beq_refl,
}
use tarkka.Acquisition.Library.{Library, SplitResult}
use tarkka.Acquisition.Names.{normalize_domain, matches_domain, is_none}
use tarkka.Acquisition.Names.Labels.{IsSubdomain, matches_domain_iff}
use tarkka.Acquisition.Policy.{
  ResourceAcquisitionPolicy, allows_domain, allows_parsed, allows_split, allows_uri,
}

-- A URI in scope: its scheme is allowed, it carries no credentials, and its host is a DNS name
-- below one of the allowed domains.
pub record IsInScope (py : Library) (p : ResourceAcquisitionPolicy) (uri : Text) : Type 0 where
  pub parsed : SplitResult
  pub hostname : Text
  pub domain : Text
  pub allowed : Text
  pub split : py.urlsplit uri ≡ some parsed
  pub scheme_allowed : contains (map ascii_lower parsed.scheme) p.allowed_schemes ≡ true
  pub no_username : parsed.username ≡ none
  pub no_password : parsed.password ≡ none
  pub host : parsed.hostname ≡ some hostname
  pub not_address : py.ip_address hostname ≡ none
  pub normalized : normalize_domain py hostname ≡ ok domain
  pub listed : contains allowed p.allowed_domains ≡ true
  pub below : IsSubdomain domain allowed

-- `any` has a witness that the list contains.
any_lem :
    (f : Text → Bool) (xs : List Text)
    → any f xs ≡ true
    → (x : Text) × (contains x xs ≡ true) × (f x ≡ true)
any_lem f [] h = ground arith
any_lem f (x ∷ xs) h = elim (Bool-cases (f x)) [
  | inl here ↦ (x, ground (arith, beq_refl x), here)
  | inr there ↦ let (y, m, e) = any_lem f xs (ground arith) in (y, ground arith, e)
]

is_none-eq {ℓ} : {A : Type ℓ} (o : Option A) → is_none o ≡ true → o ≡ none
is_none-eq none h = refl
is_none-eq (some a) h = ground arith

record IsListed (p : ResourceAcquisitionPolicy) (normalized : Result Text) : Type 0 where
  domain : Text
  allowed : Text
  is_ok : normalized ≡ ok domain
  listed : contains allowed p.allowed_domains ≡ true
  below : IsSubdomain domain allowed

allows_domain-IsListed :
    (p : ResourceAcquisitionPolicy) (normalized : Result Text)
    → allows_domain p normalized ≡ true
    → IsListed p normalized
unfolding allows_domain
allows_domain-IsListed p (ok domain) h =
    let (allowed, m, e) = any_lem (matches_domain domain) p.allowed_domains h in
    record {
      domain = domain;
      allowed = allowed;
      is_ok = refl;
      listed = m;
      below = (matches_domain_iff domain allowed).0 e;
    }
allows_domain-IsListed p (err _) h = ground arith

module _ (py : Library) (p : ResourceAcquisitionPolicy) (uri : Text) where
  allows_parsed-IsInScope :
      (parsed : SplitResult) (host : Option Text)
      → py.urlsplit uri ≡ some parsed
      → parsed.hostname ≡ host
      → allows_parsed py p parsed host ≡ true
      → IsInScope py p uri
  unfolding allows_parsed
  allows_parsed-IsInScope parsed none e e' h = ground arith
  allows_parsed-IsInScope parsed (some hostname) e e' h =
      let domain_listed : IsListed p (normalize_domain py hostname) =
        allows_domain-IsListed p (normalize_domain py hostname) (ground arith) in
      record {
        parsed = parsed;
        hostname = hostname;
        domain = domain_listed.domain;
        allowed = domain_listed.allowed;
        split = e;
        scheme_allowed = ground arith;
        no_username = is_none-eq parsed.username (ground arith);
        no_password = is_none-eq parsed.password (ground arith);
        host = e';
        not_address = is_none-eq (py.ip_address hostname) (ground arith);
        normalized = domain_listed.is_ok;
        listed = domain_listed.listed;
        below = domain_listed.below;
      }

  allows_split-IsInScope :
      (parts : Option SplitResult)
      → py.urlsplit uri ≡ parts
      → allows_split py p parts ≡ true
      → IsInScope py p uri
  unfolding allows_split
  allows_split-IsInScope none e h = ground arith
  allows_split-IsInScope (some parsed) e h = allows_parsed-IsInScope parsed parsed.hostname e refl h

  -- A URI that the policy allows parses, has an allowed scheme and no credentials, and its host is
  -- no address but a DNS name that is an allowed domain or, label by label, below one.
  pub allows_uri-IsInScope : allows_uri py p uri ≡ true → IsInScope py p uri
  unfolding allows_uri
  allows_uri-IsInScope h = allows_split-IsInScope (py.urlsplit uri) refl (ground arith)
