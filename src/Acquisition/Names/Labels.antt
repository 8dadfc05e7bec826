-- ===== src/Acquisition/Names/Labels.antt =====
-- The allowlist test on texts is the subdomain relation on their labels.
use tarkka.Prelude.{
  ℕ, ◌≡◌, ◌≢◌, refl, sym, ap, ◌∙◌, ◌↔◌, ◌⊎◌, true, List, [], ◌∷◌, ◌++◌, arith, nat_beq, nat_beq_iff,
  Bool-cases, inl, inr, ◌==◌, nat_eq, list_eq, list_beq_iff, Text, split_on, add_to_first,
  append_assoc, split_on-ne, ends_with_lem, ends_with-append,
}
use tarkka.Acquisition.Names.{matches_domain}

add_to_first-append :
    (c : ℕ) (ws vs : List Text) → ws ≢ [] → add_to_first c (ws ++ vs) ≡ add_to_first c ws ++ vs
add_to_first-append c [] vs h = absurd (h refl)
add_to_first-append c (w ∷ ws) vs h = refl

-- A separator in the middle splits the text there.
split_on-append :
    (sep : ℕ) (p s : Text) → split_on sep (p ++ sep ∷ s) ≡ split_on sep p ++ split_on sep s
unfolding split_on
split_on-append sep [] s = ground (arith, nat_beq_iff sep sep)
split_on-append sep (c ∷ cs) s = elim (Bool-cases (nat_beq c sep)) [
  | inl here ↦ rw here (ap (λ (ws : List Text). [] ∷ ws) (split_on-append sep cs s))
  | inr later ↦
      rw (later, split_on-append sep cs s)
        (add_to_first-append c (split_on sep cs) (split_on sep s) (split_on-ne sep cs))
]

join : ℕ → List Text → Text
join sep [] = []
join sep (w ∷ []) = w
join sep (w ∷ v ∷ vs) = w ++ sep ∷ join sep (v ∷ vs)

join-cons :
    (sep : ℕ) (w : Text) (ws : List Text) → ws ≢ [] → join sep (w ∷ ws) ≡ w ++ sep ∷ join sep ws
unfolding join
join-cons sep w [] h = absurd (h refl)
join-cons sep w (v ∷ vs) h = refl

join-add_to_first :
    (sep c : ℕ) (ws : List Text) → ws ≢ [] → join sep (add_to_first c ws) ≡ c ∷ join sep ws
unfolding join
join-add_to_first sep c [] h = absurd (h refl)
join-add_to_first sep c (w ∷ []) h = refl
join-add_to_first sep c (w ∷ v ∷ vs) h = refl

-- Joining the parts of a text again gives the text.
join-split_on : (sep : ℕ) (s : Text) → join sep (split_on sep s) ≡ s
unfolding split_on
join-split_on sep [] = unfold join in refl
join-split_on sep (c ∷ cs) = elim (Bool-cases (nat_beq c sep)) [
  | inl here ↦
      rw (here, join-cons sep [] (split_on sep cs) (split_on-ne sep cs), join-split_on sep cs)
        (ap (λ (n : ℕ). n ∷ cs) (sym ((nat_beq_iff c sep).0 here)))
  | inr later ↦
      rw (
        later,
        join-add_to_first sep c (split_on sep cs) (split_on-ne sep cs),
        join-split_on sep cs,
      )
]

append-ne : (us vs : List Text) → vs ≢ [] → us ++ vs ≢ []
append-ne [] vs h = h
append-ne (u ∷ us) vs h = ground arith

join-append :
    (sep : ℕ) (u : Text) (us vs : List Text)
    → vs ≢ []
    → join sep (u ∷ us ++ vs) ≡ join sep (u ∷ us) ++ sep ∷ join sep vs
join-append sep u [] vs h = join-cons sep u vs h ∙ unfold join in refl
join-append sep u (w ∷ us) vs h =
    join-cons sep u (w ∷ us ++ vs) (append-ne (w ∷ us) vs h)
    ∙ ap (λ (t : Text). u ++ sep ∷ t) (join-append sep w us vs h)
    ∙ unfold join in sym (append_assoc u (sep ∷ join sep (w ∷ us)) (sep ∷ join sep vs))

-- The labels of a host are those of an allowed domain, behind any further labels.
abbrev pub IsSubdomain : Text → Text → Type 0
IsSubdomain domain allowed =
    (labels : List Text) × (split_on b'.' domain ≡ labels ++ split_on b'.' allowed)

matches_domain-IsSubdomain :
    (domain allowed : Text) → matches_domain domain allowed ≡ true → IsSubdomain domain allowed
unfolding matches_domain
matches_domain-IsSubdomain domain allowed h = elim (Bool-cases (domain == allowed)) [
  | inl same ↦ ([], ap (split_on b'.') ((list_beq_iff domain allowed).0 same))
  | inr other ↦
      let (p, e) = ends_with_lem (b'.' ∷ allowed) domain (ground arith) in
      (split_on b'.' p, ap (split_on b'.') e ∙ split_on-append b'.' p allowed)
]

rejoin :
    (domain allowed : Text) (labels : List Text)
    → split_on b'.' domain ≡ labels ++ split_on b'.' allowed
    → (domain ≡ allowed) ⊎ ((p : Text) × (domain ≡ p ++ b'.' ∷ allowed))
rejoin domain allowed [] e =
    inl (sym (join-split_on b'.' domain) ∙ ap (join b'.') e ∙ join-split_on b'.' allowed)
rejoin domain allowed (u ∷ us) e = inr (
  join b'.' (u ∷ us),
  sym (join-split_on b'.' domain)
      ∙ ap (join b'.') e
      ∙ join-append b'.' u us (split_on b'.' allowed) (split_on-ne b'.' allowed)
      ∙ ap (λ (t : Text). join b'.' (u ∷ us) ++ b'.' ∷ t) (join-split_on b'.' allowed),
)

IsSubdomain-matches_domain :
    (domain allowed : Text) → IsSubdomain domain allowed → matches_domain domain allowed ≡ true
unfolding matches_domain
IsSubdomain-matches_domain domain allowed (labels, e) = elim (rejoin domain allowed labels e) [
  | inl same ↦ ground (arith, list_beq_iff domain allowed)
  | inr (p, e') ↦ rw (e', ends_with-append p (b'.' ∷ allowed)) (ground arith)
]

-- The allowlist test passes exactly for the allowed domain and its subdomains, label by label.
pub matches_domain_iff :
    (domain allowed : Text) → (matches_domain domain allowed ≡ true) ↔ IsSubdomain domain allowed
matches_domain_iff domain allowed =
    (matches_domain-IsSubdomain domain allowed, IsSubdomain-matches_domain domain allowed)
