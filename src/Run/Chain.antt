-- ===== src/Run/Chain.antt =====
-- The journal of a run in run.rs is a chain: its last digest stands for all of it.
use gaugemesh.Base.{
  ℕ, ◌+◌, ◌≡◌, ◌≢◌, ◌⊎◌, refl, sym, ◌∙◌, arith, Bool, true, false, not, ◌||◌, some, List, [], ◌∷◌,
  length, ok, reject_if_ok, reject_if_pass, >>_pass, last_reject_if_ok, >>_ok, ltb, ◌==◌, ◌!=◌,
  string_eq, nat_eq, option_eq, Bool-cases, inl, inr, not-false, option_beq_iff,
}
use gaugemesh.Digest.{
  Json, string, number, Hashing, canonical_json, insert_field, json, of_json, Sha256Digest,
}
use gaugemesh.Digest.Equality.{json_beq, json_beq_iff}
use gaugemesh.Task.Record.{caller_json}
use gaugemesh.Run.{
  RunEvent, RunRecord, is_text, run_key_of, schema, last_event, last_state, event_digest,
  state_digest, plan_digest, verify_journal, verify_run,
}

five :
    (a b c d e : Bool)
    → (a || b || c || d || e) ≡ false
    → (a ≡ false) × (b ≡ false) × (c ≡ false) × (d ≡ false) × (e ≡ false)
five a b c d e f = ground arith

module _ (h : Hashing) where
  -- Two values with one hash
  abbrev pub Collides : Type 0
  Collides = (v : Json) × (w : Json) × (v ≢ w) × (h.sha256 v ≡ h.sha256 w)

  -- Two values with one digest have one canonical form, or they are a collision.
  of_json-cases :
      (v w : Json) → of_json h v ≡ of_json h w → (canonical_json v ≡ canonical_json w) ⊎ Collides
  unfolding of_json
  of_json-cases v w e = elim (Bool-cases (json_beq (canonical_json v) (canonical_json w))) [
    | inl same ↦ inl ((json_beq_iff (canonical_json v) (canonical_json w)).0 same)
    | inr other ↦ inr (
      canonical_json v,
      canonical_json w,
      (λ same. ground (arith, other, (json_beq_iff (canonical_json v) (canonical_json w)).1 same)),
      e,
    )
  ]

  abbrev ordered_event : RunEvent → Json
  ordered_event e = json (
      ("kind", string e.kind)
      ∷ ("previousSha256", string (h.display e.previous_sha256))
      ∷ ("stateSha256", string (h.display e.state_sha256))
      ∷ ("version", number e.version)
      ∷ [])

  event_json : RunEvent → Json
  event_json e = json (
      ("version", number e.version)
      ∷ ("kind", string e.kind)
      ∷ ("stateSha256", string (h.display e.state_sha256))
      ∷ ("previousSha256", string (h.display e.previous_sha256))
      ∷ [])

  event_digest_lem : (e : RunEvent) → event_digest h e ≡ of_json h (event_json e)
  unfolding event_digest event_json
  event_digest_lem e = refl

  ordered_event_lem : (e : RunEvent) → canonical_json (event_json e) ≡ ordered_event e
  unfolding event_json canonical_json insert_field
  ordered_event_lem e = refl

  -- An event that the loop of `verify_integrity` passes
  pub verify_journal-cons :
      (i : ℕ) (previous : Sha256Digest) (e : RunEvent) (rest : List RunEvent)
      → verify_journal h i previous (e ∷ rest) ≡ ok tt
      → (e.version ≡ i)
        × (e.previous_sha256 ≡ previous)
        × (event_digest h e ≡ e.event_sha256)
        × (verify_journal h (i + 1) e.event_sha256 rest ≡ ok tt)
  unfolding verify_journal
  verify_journal-cons i previous e rest v =
      let (test, others) =
        reject_if_ok
          (e.version != i || e.previous_sha256 != previous || event_digest h e != e.event_sha256) _
          _ v in
      (ground (arith, test), ground (arith, test), ground (arith, test), others)

  module _ (display_inj : (d e : Sha256Digest) → h.display d ≡ h.display e → d ≡ e) where
    event_inj :
        (x y : RunEvent)
        → event_digest h x ≡ x.event_sha256
        → event_digest h y ≡ y.event_sha256
        → x.event_sha256 ≡ y.event_sha256
        → (x ≡ y) ⊎ Collides
    event_inj x y p q e =
        elim (of_json-cases (event_json x) (event_json y)
          (sym (event_digest_lem x) ∙ p ∙ e ∙ sym q ∙ event_digest_lem y)) [
            | inl same ↦
                let forms : ordered_event x ≡ ordered_event y =
                  sym (ordered_event_lem x) ∙ same ∙ ordered_event_lem y in
                let previous = display_inj x.previous_sha256 y.previous_sha256 (cc forms) in
                let state = display_inj x.state_sha256 y.state_sha256 (cc forms) in
                inl (cc (forms, previous, state, e))
            | inr collision ↦ inr collision
          ]

    journal_inj :
        (i : ℕ) (p q : Sha256Digest) (xs ys : List RunEvent)
        → length xs ≡ length ys
        → verify_journal h i p xs ≡ ok tt
        → verify_journal h i q ys ≡ ok tt
        → last_event p xs ≡ last_event q ys
        → ((p ≡ q) × (xs ≡ ys)) ⊎ Collides
    journal_inj i p q [] [] l v w e = inl (e, refl)
    journal_inj i p q [] (y ∷ ys) l v w e = absurd (omega (arith, l))
    journal_inj i p q (x ∷ xs) [] l v w e = absurd (omega (arith, l))
    journal_inj i p q (x ∷ xs) (y ∷ ys) l v w e =
        let (_, before, sealed, others) = verify_journal-cons i p x xs v in
        let (_, before', sealed', others') = verify_journal-cons i q y ys w in
        elim (journal_inj (i + 1) x.event_sha256 y.event_sha256 xs ys (omega (arith, l)) others
          others' e) [
            | inl (ends, tails) ↦ elim (event_inj x y sealed sealed' ends) [
              | inl heads ↦ inl (cc (before, before', heads), cc (heads, tails))
              | inr collision ↦ inr collision
            ]
            | inr collision ↦ inr collision
          ]

  abbrev last_of : RunEvent → List RunEvent → RunEvent
  last_of e [] = e
  last_of e (f ∷ rest) = last_of f rest

  last_of_lem :
      (i : ℕ) (previous : Sha256Digest) (e : RunEvent) (rest : List RunEvent)
      → verify_journal h i previous (e ∷ rest) ≡ ok tt
      → ((last_of e rest).version ≡ i + length rest)
        × (event_digest h (last_of e rest) ≡ (last_of e rest).event_sha256)
        × (last_event previous (e ∷ rest) ≡ (last_of e rest).event_sha256)
        × (last_state (e ∷ rest) ≡ some (last_of e rest).state_sha256)
  last_of_lem i previous e [] v =
      let (version, _, sealed, _) = verify_journal-cons i previous e [] v in
      (omega (arith, version), sealed, refl, refl)
  last_of_lem i previous e (f ∷ rest) v =
      let (_, _, _, others) = verify_journal-cons i previous e (f ∷ rest) v in
      let (version, sealed, end, state) = last_of_lem (i + 1) e.event_sha256 f rest others in
      (omega (arith, version), sealed, end, state)

  -- What `verify_integrity` of a run asks for
  abbrev pub IsVerified : RunRecord → Type 0
  IsVerified r =
      (r.schema_version ≡ schema)
      × (ltb 512 r.version ≡ false)
      × (length r.journal ≡ r.version + 1)
      × (plan_digest h r.contents ≡ some r.plan_sha256)
      × (is_text (run_key_of r.contents) r.run_key ≡ true)
      × (verify_journal h 0 0 r.journal ≡ ok tt)
      × (last_state r.journal ≡ some (state_digest h r))

  pub verify_run_sound : (r : RunRecord) → verify_run h r ≡ ok tt → IsVerified r
  unfolding verify_run
  verify_run_sound r v =
      let (test, e) =
        reject_if_ok
          (r.schema_version != schema
            || ltb 512 r.version
            || length r.journal != r.version + 1
            || plan_digest h r.contents != some r.plan_sha256
            || not (is_text (run_key_of r.contents) r.run_key))
          _ _ v in
      let (chain, f) = >>_ok (verify_journal h 0 0 r.journal) _ e in
      let last = last_reject_if_ok (last_state r.journal != some (state_digest h r)) _ f in
      let (a, b, c, d, k) =
        five (r.schema_version != schema) (ltb 512 r.version) (length r.journal != r.version + 1)
          (plan_digest h r.contents != some r.plan_sha256)
          (not (is_text (run_key_of r.contents) r.run_key)) test in
      (
        (string_eq.same_iff r.schema_version schema).0 (not-false (r.schema_version == schema) a),
        b,
        ground (arith, c),
        (option_beq_iff (plan_digest h r.contents) (some r.plan_sha256)).0
            (not-false (plan_digest h r.contents == some r.plan_sha256) d),
        not-false (is_text (run_key_of r.contents) r.run_key) k,
        chain,
        (option_beq_iff (last_state r.journal) (some (state_digest h r))).0
            (not-false (last_state r.journal == some (state_digest h r)) last),
      )

  pub verify_run_complete : (r : RunRecord) → IsVerified r → verify_run h r ≡ ok tt
  unfolding verify_run
  verify_run_complete r (schema_ok, version, size, plan, key, chain, state) =
      let a = (string_eq.same_iff r.schema_version schema).1 schema_ok in
      let d = (option_beq_iff (plan_digest h r.contents) (some r.plan_sha256)).1 plan in
      let last = (option_beq_iff (last_state r.journal) (some (state_digest h r))).1 state in
      reject_if_pass
        (r.schema_version != schema
          || ltb 512 r.version
          || length r.journal != r.version + 1
          || plan_digest h r.contents != some r.plan_sha256
          || not (is_text (run_key_of r.contents) r.run_key))
        _ _ (ground (arith, a, d))
        (>>_pass (verify_journal h 0 0 r.journal) _ chain (ground (arith, last)))

  verified_last :
      (r : RunRecord)
      → IsVerified r
      → (e : RunEvent) × (last_event 0 r.journal ≡ e.event_sha256)
        × (event_digest h e ≡ e.event_sha256)
        × (length r.journal ≡ e.version + 1)
        × (e.state_sha256 ≡ state_digest h r)
  verified_last r v = let (_, _, size, _, _, chain, state) = v in go r.journal size chain state
    where
      go :
          (journal : List RunEvent)
          → length journal ≡ r.version + 1
          → verify_journal h 0 0 journal ≡ ok tt
          → last_state journal ≡ some (state_digest h r)
          → (e : RunEvent) × (last_event 0 journal ≡ e.event_sha256)
            × (event_digest h e ≡ e.event_sha256)
            × (length journal ≡ e.version + 1)
            × (e.state_sha256 ≡ state_digest h r)
      go [] size chain state = absurd (omega (arith, size))
      go (e ∷ rest) size chain state =
          let (version, sealed, end, last) = last_of_lem 0 0 e rest chain in
          (last_of e rest, end, sealed, omega (arith, version), cc (state, last))

  -- The fields that the state digest covers, `data` in its canonical form
  abbrev pub SameState : RunRecord → RunRecord → Type 0
  SameState r s =
      (r.run_id ≡ s.run_id)
      × (r.caller ≡ s.caller)
      × (r.run_key ≡ s.run_key)
      × (r.plan_sha256 ≡ s.plan_sha256)
      × (r.version ≡ s.version)
      × (canonical_json r.contents ≡ canonical_json s.contents)

  state_json : RunRecord → Json
  state_json r = json (
      ("schemaVersion", string r.schema_version)
      ∷ ("runId", string r.run_id)
      ∷ ("caller", caller_json r.caller)
      ∷ ("runKey", string r.run_key)
      ∷ ("planSha256", string (h.display r.plan_sha256))
      ∷ ("version", number r.version)
      ∷ ("data", r.contents)
      ∷ [])

  state_digest_lem : (r : RunRecord) → state_digest h r ≡ of_json h (state_json r)
  unfolding state_digest state_json
  state_digest_lem r = refl

  abbrev ordered_state : RunRecord → Json
  ordered_state r = json (
      ("caller", caller_json r.caller)
      ∷ ("data", canonical_json r.contents)
      ∷ ("planSha256", string (h.display r.plan_sha256))
      ∷ ("runId", string r.run_id)
      ∷ ("runKey", string r.run_key)
      ∷ ("schemaVersion", string r.schema_version)
      ∷ ("version", number r.version)
      ∷ [])

  ordered_state_lem : (r : RunRecord) → canonical_json (state_json r) ≡ ordered_state r
  unfolding state_json canonical_json insert_field
  ordered_state_lem r = refl

  module _ (display_inj : (d e : Sha256Digest) → h.display d ≡ h.display e → d ≡ e) where
    state_inj : (r s : RunRecord) → state_digest h r ≡ state_digest h s → SameState r s ⊎ Collides
    state_inj r s e =
        elim (of_json-cases (state_json r) (state_json s)
          (sym (state_digest_lem r) ∙ e ∙ state_digest_lem s)) [
            | inl same ↦
                let forms : ordered_state r ≡ ordered_state s =
                  sym (ordered_state_lem r) ∙ same ∙ ordered_state_lem s in
                let plan = display_inj r.plan_sha256 s.plan_sha256 (cc forms) in
                inl (cc forms, cc forms, cc forms, plan, cc forms, cc forms)
            | inr collision ↦ inr collision
          ]

    -- Where digests have different texts, two runs that verify and end in the same event digest have
    -- the same journal, and the same identity, caller, key, plan, version and data, unless two
    -- values are at hand that have the same hash.
    pub verify_run-sealed :
        (r s : RunRecord)
        → verify_run h r ≡ ok tt
        → verify_run h s ≡ ok tt
        → last_event 0 r.journal ≡ last_event 0 s.journal
        → ((r.journal ≡ s.journal) × SameState r s) ⊎ Collides
    verify_run-sealed r s v w e =
        let of_r = verify_run_sound r v in
        let of_s = verify_run_sound s w in
        let (x, end, sealed, size, state) = verified_last r of_r in
        let (y, end', sealed', size', state') = verified_last s of_s in
        let (_, _, _, _, _, chain, _) = of_r in
        let (_, _, _, _, _, chain', _) = of_s in
        elim (event_inj display_inj x y sealed sealed' (sym end ∙ e ∙ end')) [
          | inl same ↦
              let lengths : length r.journal ≡ length s.journal = cc (same, size, size') in
              let states : state_digest h r ≡ state_digest h s = cc (same, state, state') in
              elim (journal_inj display_inj 0 0 0 r.journal s.journal lengths chain chain' e) [
                | inl (_, journals) ↦ elim (state_inj r s states) [
                  | inl alike ↦ inl (journals, alike)
                  | inr collision ↦ inr collision
                ]
                | inr collision ↦ inr collision
              ]
          | inr collision ↦ inr collision
        ]
