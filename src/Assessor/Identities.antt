-- ===== src/Assessor/Identities.antt =====
-- model.py: the identities behind the keys of an accepted trust configuration.
use vap_spec.Base.{
  ◌≡◌, refl, sym, true, some, String, List, [], ◌∷◌, str_eq, eq_iff, eq_refl, All, leb, inl, inr,
  Bool-cases, arith,
}
use vap_spec.Runtime.Json.{Json, Fields, end, field, count_fields}
use vap_spec.Runtime.Request.{check}
use vap_spec.Gate.Policy.{lookup}
use vap_spec.RecordGate.Audit.Once.{bind-eq_some}
use vap_spec.Assessor.{
  InputLib, is_input_text, TrustKey, trust_key, fits, trust_keys, validate_trust, bounded_json,
  exact_keys, max_input_items, trust_fields, trust_formats, trust_modes, workflows, choice_of,
  text_of, time_of, hex_of, dict_of,
}

-- Two keys that are one public key are of one issuer and organization, and two keys of one issuer
-- are of one organization.
pub record Agree (a b : TrustKey) : Type 0 where
  pub one_identity :
      a.public_key ≡ b.public_key → (a.issuer ≡ b.issuer) × (a.organization ≡ b.organization)
  pub one_organization : a.issuer ≡ b.issuer → a.organization ≡ b.organization

abbrev pub AllAgree : List TrustKey → Type 0
AllAgree [] = Unit
AllAgree (k ∷ rest) = All (Agree k) rest × AllAgree rest

module _ (lib : InputLib) where
  record Step (key : Json) (rest : Fields) (is : List (String × (String × String)))
      (os : List (String × String)) (keys : List TrustKey) : Type 0 where
    head : TrustKey
    tail : List TrustKey
    cut : keys ≡ head ∷ tail
    fitting : fits lib head is os ≡ true
    remaining :
        trust_keys lib rest
          ((head.public_key, (head.issuer, head.organization)) ∷ is)
          ((head.issuer, head.organization) ∷ os)
        ≡ some tail

  trust_keys-Step :
      (key_id : String) (key : Json) (rest : Fields) (is : List (String × (String × String)))
      (os : List (String × String)) (keys : List TrustKey)
      → trust_keys lib (field key_id key rest) is os ≡ some keys
      → Step key rest is os keys
  unfolding trust_keys
  trust_keys-Step key_id key rest is os keys h =
      let (u, e0, h0) = bind-eq_some (check (is_input_text lib key_id)) _ keys h in
      let (k, e1, h1) = bind-eq_some (trust_key lib key) _ keys h0 in
      let (w, e2, h2) = bind-eq_some (check (fits lib k is os)) _ keys h1 in
      let (more, e3, h3) =
        bind-eq_some
          (trust_keys lib rest ((k.public_key, (k.issuer, k.organization)) ∷ is)
            ((k.issuer, k.organization) ∷ os))
          _ keys h2 in
      record { head = k; tail = more; cut = cc; fitting = ground arith; remaining = e3 }

  fits-identity :
      (k : TrustKey) (is : List (String × (String × String))) (os : List (String × String))
      (issuer organization : String)
      → fits lib k is os ≡ true
      → lookup k.public_key is ≡ some (issuer, organization)
      → (issuer ≡ k.issuer) × (organization ≡ k.organization)
  unfolding fits
  fits-identity k is os issuer organization h there = (
    ground (arith, there, eq_iff issuer k.issuer),
    ground (arith, there, eq_iff organization k.organization),
  )

  fits-organization :
      (k : TrustKey) (is : List (String × (String × String))) (os : List (String × String))
      (organization : String)
      → fits lib k is os ≡ true
      → lookup k.issuer os ≡ some organization
      → organization ≡ k.organization
  unfolding fits
  fits-organization k is os organization h there =
      ground (arith, there, eq_iff organization k.organization)

  lookup-first :
      (k pk : String) (i o : String) (is : List (String × (String × String)))
      (issuer organization : String)
      → lookup pk is ≡ some (issuer, organization)
      → (pk ≡ k → (issuer ≡ i) × (organization ≡ o))
      → lookup pk ((k, (i, o)) ∷ is) ≡ some (issuer, organization)
  unfolding lookup
  lookup-first k pk i o is issuer organization there same = elim (Bool-cases (str_eq k pk)) [
    | inr other ↦ rw other there
    | inl here ↦
        let e : pk ≡ k = ground (arith, here, eq_iff k pk) in
        let (a, b) = same e in rw (here, a, b) refl
  ]

  lookup-issuer :
      (k issuer o : String) (os : List (String × String)) (organization : String)
      → lookup issuer os ≡ some organization
      → (issuer ≡ k → organization ≡ o)
      → lookup issuer ((k, o) ∷ os) ≡ some organization
  unfolding lookup
  lookup-issuer k issuer o os organization there same = elim (Bool-cases (str_eq k issuer)) [
    | inr other ↦ rw other there
    | inl here ↦
        let e : issuer ≡ k = ground (arith, here, eq_iff k issuer) in
        let a = same e in rw (here, a) refl
  ]

  -- The keys that follow fit what was looked up before.
  later_identity :
      (fs : Fields) (is : List (String × (String × String))) (os : List (String × String))
      (keys : List TrustKey) (pk issuer organization : String)
      → trust_keys lib fs is os ≡ some keys
      → lookup pk is ≡ some (issuer, organization)
      → All
          (λ (j : TrustKey).
            pk ≡ j.public_key → (issuer ≡ j.issuer) × (organization ≡ j.organization))
          keys
  unfolding trust_keys
  later_identity end is os keys pk issuer organization h there = let e : keys ≡ [] = cc in rw e tt
  later_identity (field key_id key rest) is os keys pk issuer organization h there =
      let s = trust_keys-Step key_id key rest is os keys h in
      let head : pk ≡ s.head.public_key
          → (issuer ≡ s.head.issuer) × (organization ≡ s.head.organization) =
        λ e. fits-identity s.head is os issuer organization s.fitting (rw (sym e) there) in
      rw s.cut (
        head,
        later_identity rest _ _ s.tail pk issuer organization s.remaining (
            lookup-first s.head.public_key pk s.head.issuer s.head.organization is issuer
              organization there head),
      )

  later_organization :
      (fs : Fields) (is : List (String × (String × String))) (os : List (String × String))
      (keys : List TrustKey) (issuer organization : String)
      → trust_keys lib fs is os ≡ some keys
      → lookup issuer os ≡ some organization
      → All (λ (j : TrustKey). issuer ≡ j.issuer → organization ≡ j.organization) keys
  unfolding trust_keys
  later_organization end is os keys issuer organization h there = let e : keys ≡ [] = cc in rw e tt
  later_organization (field key_id key rest) is os keys issuer organization h there =
      let s = trust_keys-Step key_id key rest is os keys h in
      let head : issuer ≡ s.head.issuer → organization ≡ s.head.organization =
        λ e. fits-organization s.head is os organization s.fitting (rw (sym e) there) in
      rw s.cut (
        head,
        later_organization rest _ _ s.tail issuer organization s.remaining
            (lookup-issuer s.head.issuer issuer s.head.organization os organization there head),
      )

  Agree-All :
      (k : TrustKey) (keys : List TrustKey)
      → All
          (λ (j : TrustKey).
            k.public_key ≡ j.public_key → (k.issuer ≡ j.issuer) × (k.organization ≡ j.organization))
          keys
      → All (λ (j : TrustKey). k.issuer ≡ j.issuer → k.organization ≡ j.organization) keys
      → All (Agree k) keys
  Agree-All k [] h g = tt
  Agree-All k (j ∷ rest) h g =
      (record { one_identity = h.0; one_organization = g.0 }, Agree-All k rest h.1 g.1)

  trust_keys-AllAgree :
      (fs : Fields) (is : List (String × (String × String))) (os : List (String × String))
      (keys : List TrustKey)
      → trust_keys lib fs is os ≡ some keys
      → AllAgree keys
  unfolding trust_keys lookup
  trust_keys-AllAgree end is os keys h = let e : keys ≡ [] = cc in rw e tt
  trust_keys-AllAgree (field key_id key rest) is os keys h =
      let s = trust_keys-Step key_id key rest is os keys h in
      let k = s.head in
      rw s.cut (
        Agree-All k s.tail
            (later_identity rest _ _ s.tail k.public_key k.issuer k.organization s.remaining
              (rw (eq_refl k.public_key) refl))
            (later_organization rest _ _ s.tail k.issuer k.organization s.remaining
              (rw (eq_refl k.issuer) refl)),
        trust_keys-AllAgree rest _ _ s.tail s.remaining,
      )

  -- In a trust configuration that is accepted, one public key never stands for two issuers or two
  -- organizations, under whatever key ids, and one issuer never has two organizations.
  pub validate_trust-AllAgree :
      (trust : Json) (keys : List TrustKey) → validate_trust lib trust ≡ some keys → AllAgree keys
  unfolding validate_trust
  validate_trust-AllAgree trust keys h =
      let (u, e0, h0) = bind-eq_some (check (bounded_json trust 0)) _ keys h in
      let (raw, e1, h1) = bind-eq_some (lib.dumps trust) _ keys h0 in
      let (fs, e2, h2) = bind-eq_some (exact_keys trust_fields trust) _ keys h1 in
      let (a, e3, h3) = bind-eq_some (choice_of lib trust_formats "format" fs) _ keys h2 in
      let (b, e4, h4) = bind-eq_some (text_of lib "evaluation_id" fs) _ keys h3 in
      let (c, e5, h5) = bind-eq_some (choice_of lib workflows "workflow" fs) _ keys h4 in
      let (d, e6, h6) = bind-eq_some (time_of lib "as_of" fs) _ keys h5 in
      let (e, e7, h7) = bind-eq_some (hex_of lib "target_sha256" fs) _ keys h6 in
      let (f, e8, h8) = bind-eq_some (choice_of lib trust_modes "mode" fs) _ keys h7 in
      let (entries, e9, h9) = bind-eq_some (dict_of lib "keys" fs) _ keys h8 in
      let (w, e10, h10) =
        bind-eq_some (check (leb (count_fields entries) max_input_items)) _ keys h9 in
      trust_keys-AllAgree entries [] [] keys h10
