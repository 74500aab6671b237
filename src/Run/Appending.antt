-- ===== src/Run/Appending.antt =====
-- What `RunRecord::append` of run.rs leaves.
use gaugemesh.Base.{
  ℕ, ◌+◌, ◌≤◌, String, len, ◌≡◌, refl, sym, ap, ◌∙◌, arith, true, ◌||◌, some, List, [], ◌∷◌, ◌++◌,
  length, length-append, ok, reject_if_ok, reject_if_pass, >>_ok, >>_pass, ltb, subst, ◌!=◌,
  string_eq, nat_eq, option_eq,
}
use gaugemesh.Digest.{Hashing}
use gaugemesh.Run.{
  RunEvent, RunRecord, is_text, run_key_of, schema, last_event, last_state, event_digest,
  state_digest, plan_digest, next_event, verify_journal, verify_run, append_event,
}
use gaugemesh.Run.Chain.{verify_run_complete}

module _ (h : Hashing) where
  abbrev pub appended : RunRecord → String → RunRecord
  appended r kind = record r { journal = r.journal ++ (next_event h r kind ∷ []) }

  -- An append that succeeds has added one event, the run verifies, and its bounds are kept.
  pub append_event_sound :
      (r next : RunRecord) (kind : String)
      → append_event h r kind ≡ ok next
      → (next ≡ appended r kind)
        × (verify_run h next ≡ ok tt)
        × (r.version ≤ 512)
        × (len kind ≤ 128)
        × (h.encoded_len r.contents ≤ 2097152)
  unfolding append_event
  append_event_sound r next kind e =
      let (bound, f) =
        reject_if_ok
          (ltb 512 r.version || ltb 128 (len kind) || ltb 2097152 (h.encoded_len r.contents)) _ _
          e in
      let (verified, g) = >>_ok (verify_run h (appended r kind)) _ f in
      let same : appended r kind ≡ next = cc g in
      (
        cc same,
        subst (λ t. verify_run h t ≡ ok tt) same verified,
        ground (arith, bound),
        ground (arith, bound),
        ground (arith, bound),
      )

  verify_journal-append :
      (i : ℕ) (previous : ℕ) (xs : List RunEvent) (e : RunEvent)
      → verify_journal h i previous xs ≡ ok tt
      → e.version ≡ i + length xs
      → e.previous_sha256 ≡ last_event previous xs
      → event_digest h e ≡ e.event_sha256
      → verify_journal h i previous (xs ++ (e ∷ [])) ≡ ok tt
  unfolding verify_journal
  verify_journal-append i previous [] e v version before sealed =
      ground (arith, version, before, sealed)
  verify_journal-append i previous (x ∷ xs) e v version before sealed =
      let (test, others) =
        reject_if_ok
          (x.version != i || x.previous_sha256 != previous || event_digest h x != x.event_sha256) _
          _ v in
      reject_if_pass
        (x.version != i || x.previous_sha256 != previous || event_digest h x != x.event_sha256) _ _
        test
        (verify_journal-append (i + 1) x.event_sha256 xs e others (omega (arith, version)) before
          sealed)

  last_state-append :
      (xs : List RunEvent) (e : RunEvent) → last_state (xs ++ (e ∷ [])) ≡ some e.state_sha256
  last_state-append [] e = refl
  last_state-append (x ∷ []) e = refl
  last_state-append (x ∷ y ∷ xs) e = last_state-append (y ∷ xs) e

  digest_unsealed :
      (r : RunRecord) (kind : String)
      → event_digest h (next_event h r kind) ≡ (next_event h r kind).event_sha256
  unfolding event_digest
  digest_unsealed r kind = refl

  state_digest-journal :
      (r : RunRecord) (events : List RunEvent)
      → state_digest h (record r { journal = events }) ≡ state_digest h r
  unfolding state_digest
  state_digest-journal r events = refl

  -- Within the bounds an append to a chain of events that verifies succeeds.
  pub append_event_complete :
      (r : RunRecord) (kind : String)
      → r.schema_version ≡ schema
      → length r.journal ≡ r.version
      → plan_digest h r.contents ≡ some r.plan_sha256
      → is_text (run_key_of r.contents) r.run_key ≡ true
      → verify_journal h 0 0 r.journal ≡ ok tt
      → r.version ≤ 512
      → len kind ≤ 128
      → h.encoded_len r.contents ≤ 2097152
      → append_event h r kind ≡ ok (appended r kind)
  unfolding append_event
  append_event_complete r kind schema_ok size plan key chain versions kinds contents =
      reject_if_pass
        (ltb 512 r.version || ltb 128 (len kind) || ltb 2097152 (h.encoded_len r.contents)) _ _
        (ground arith)
        (>>_pass (verify_run h (appended r kind)) _
          (verify_run_complete h (appended r kind) (
            schema_ok,
            ground arith,
            omega (arith, size, length-append r.journal (next_event h r kind ∷ [])),
            plan,
            key,
            verify_journal-append 0 0 r.journal (next_event h r kind) chain (omega (arith, size))
                refl (digest_unsealed r kind),
            last_state-append r.journal (next_event h r kind)
                ∙ ap (λ d. some d)
                    (sym (state_digest-journal r (r.journal ++ (next_event h r kind ∷ [])))),
          ))
          refl)
