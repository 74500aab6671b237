-- ===== src/Run/Store/Loading.antt =====
-- What `load` of run.rs reads.
use gaugemesh.Base.{
  ℕ, ◌+◌, ◌≤◌, ◌<◌, String, ◌≡◌, sym, ap, ◌∙◌, subst, arith, Bool, false, ◌&&◌, ◌||◌, Option, some,
  List, [], ◌∷◌, map, length, All, All-map, All-zip, find, find-Elem, keep, take, sort_by_key,
  sort-All, sort-All_inv, nat_ord, ltb, ok, >>_ok, reject_if_ok, reject_if_pass, >>_pass, both,
  ◌==◌, string_eq, nat_eq, option_eq, Bool-cases, Option-cases, inl, inr,
}
use gaugemesh.Digest.{Hashing}
use gaugemesh.Digest.Equality.{json_eq}
use gaugemesh.Task.{TaskRouteCaller}
use gaugemesh.Run.{RunEvent, RunRecord, verify_journal, verify_run}
use gaugemesh.Run.Chain.{verify_run_sound, verify_journal-cons}
use gaugemesh.Run.Store.{
  RunRow, JournalRow, RunTables, is_owned, entries_of, selected_events, record_of, load_row, load,
}
use gaugemesh.Run.Store.Selecting.{version_of, event_of, length-take_short, length-map, take_all}

pub not-ltb : (a b : ℕ) → ltb a b ≡ false → b ≤ a
not-ltb a b e = ground arith

-- A journal row stands under the version of its event.
abbrev pub IsFiled : JournalRow → Type 0
IsFiled row = row.version ≡ row.event.version

module _ {A : Type 0} where
  keep-All : (P : A → Type 0) (p : A → Bool) (xs : List A) → All P xs → All P (keep p xs)
  keep-All P p [] h = tt
  keep-All P p (x ∷ xs) h = elim (Bool-cases (p x)) [
    | inl e ↦ rw e (h.0, keep-All P p xs h.1)
    | inr e ↦ rw e (keep-All P p xs h.1)
  ]

  All-map_inv :
      {B : Type 0} (P : B → Type 0) (f : A → B) (xs : List A)
      → All P (map f xs)
      → All (λ x. P (f x)) xs
  All-map_inv P f [] h = tt
  All-map_inv P f (x ∷ xs) h = (h.0, All-map_inv P f xs h.1)

module _ (h : Hashing) where
  journal_versions :
      (i : ℕ) (previous : ℕ) (xs : List RunEvent)
      → verify_journal h i previous xs ≡ ok tt
      → All (λ (e : RunEvent). e.version < i + length xs) xs
  journal_versions i previous [] v = tt
  journal_versions i previous (x ∷ xs) v =
      let (version, _, _, others) = verify_journal-cons h i previous x xs v in
      (
        omega (arith, version),
        All-map xs (λ e below. omega (arith, below))
            (journal_versions (i + 1) x.event_sha256 xs others),
      )

  -- The rows of a run whose selected events verify are not above its version.
  pub entries_below :
      (rows : List JournalRow) (id : String) (r : RunRecord)
      → All IsFiled rows
      → r.journal ≡ selected_events rows id
      → verify_run h r ≡ ok tt
      → All (λ (x : JournalRow). x.version ≤ r.version) (entries_of rows id)
        × (length (selected_events rows id) < 514)
  entries_below rows id r filed same verified =
      let (_, bound, size, _, _, chain, _) = verify_run_sound h r verified in
      let entries = entries_of rows id in
      let sorted = sort_by_key version_of entries in
      let count : length (selected_events rows id) ≡ r.version + 1 = ap length (sym same) ∙ size in
      let short : length (selected_events rows id) < 514 =
        omega (arith, count, not-ltb 512 r.version bound) in
      let fits : length sorted < 514 =
        length-take_short 514 sorted
          (omega (arith, length-map event_of (take 514 sorted), short)) in
      let below : All (λ (e : RunEvent). e.version < 0 + length r.journal)
          (selected_events rows id) =
        subst (λ l. All (λ (e : RunEvent). e.version < 0 + length r.journal) l) same
          (journal_versions 0 0 r.journal chain) in
      let taken : All (λ (x : JournalRow). x.event.version < 0 + length r.journal)
          (take 514 sorted) =
        All-map_inv (λ (e : RunEvent). e.version < 0 + length r.journal) event_of (take 514 sorted)
          below in
      let events : All (λ (x : JournalRow). x.event.version < 0 + length r.journal) sorted =
        subst (λ l. All (λ (x : JournalRow). x.event.version < 0 + length r.journal) l)
          (take_all 514 sorted (omega (arith, fits))) taken in
      let files : All IsFiled sorted =
        sort-All version_of IsFiled entries
          (keep-All IsFiled (λ (x : JournalRow). x.run_id == id) rows filed) in
      (
        sort-All_inv version_of (λ (x : JournalRow). x.version ≤ r.version) entries
            (All-zip sorted (λ x f b. omega (arith, f, b, size)) files events),
        short,
      )

  -- What a load that finds a run has read
  abbrev pub IsLoaded : RunTables → TaskRouteCaller → String → RunRecord → Type 0
  IsLoaded tables caller id r =
      (row : RunRow) × (find (is_owned caller id) tables.runs ≡ some row)
      × (row.run_id ≡ id)
      × (r ≡ record_of row caller (selected_events tables.run_journal id))
      × (verify_run h r ≡ ok tt)

  load_row-IsLoaded :
      (tables : RunTables) (caller : TaskRouteCaller) (id : String) (r : RunRecord) (row : RunRow)
      → find (is_owned caller id) tables.runs ≡ some row
      → row.run_id ≡ id
      → load_row h tables caller row ≡ ok (some r)
      → IsLoaded tables caller id r
  unfolding load_row
  load_row-IsLoaded tables caller id r row f same_id run =
      let (_, e) =
        reject_if_ok (ltb 2097152 (h.encoded_len row.document) || ltb 512 row.version) _ _ run in
      let (verified, g) =
        >>_ok (verify_run h (record_of row caller (selected_events tables.run_journal row.run_id)))
          _ e in
      let same : record_of row caller (selected_events tables.run_journal row.run_id) ≡ r = cc g in
      (
        row,
        f,
        same_id,
        sym same ∙ ap (λ i. record_of row caller (selected_events tables.run_journal i)) same_id,
        subst (λ t. verify_run h t ≡ ok tt) same verified,
      )

  pub load-IsLoaded :
      (tables : RunTables) (caller : TaskRouteCaller) (id : String) (r : RunRecord)
      → load h tables caller id ≡ ok (some r)
      → IsLoaded tables caller id r
  unfolding load
  load-IsLoaded tables caller id r e = elim (Option-cases (find (is_owned caller id) tables.runs)) [
    | inl missing ↦ ground (arith, missing)
    | inr (row, f) ↦
        let run : load_row h tables caller row ≡ ok (some r) = ground (arith, f) in
        let (owned, _) = find-Elem (is_owned caller id) tables.runs f in
        let (front, _) =
          both (row.run_id == id && row.principal == caller.principal) (row.tenant == caller.tenant)
            owned in
        let (here, _) = both (row.run_id == id) (row.principal == caller.principal) front in
        let same_id = (string_eq.same_iff row.run_id id).0 here in
        load_row-IsLoaded tables caller id r row f same_id run
  ]

  pub load_row_pass :
      (tables : RunTables) (caller : TaskRouteCaller) (row : RunRow) (r : RunRecord)
      → h.encoded_len row.document ≤ 2097152
      → row.version ≤ 512
      → record_of row caller (selected_events tables.run_journal row.run_id) ≡ r
      → verify_run h r ≡ ok tt
      → load_row h tables caller row ≡ ok (some r)
  unfolding load_row
  load_row_pass tables caller row r size version same verified =
      reject_if_pass (ltb 2097152 (h.encoded_len row.document) || ltb 512 row.version) _ _
        (ground arith)
        (>>_pass
          (verify_run h (record_of row caller (selected_events tables.run_journal row.run_id))) _
          (subst (λ t. verify_run h t ≡ ok tt) (sym same) verified) (ap (λ t. ok (some t)) same))

  pub load_pass :
      (tables : RunTables) (caller : TaskRouteCaller) (id : String) (row : RunRow)
      {o : Option RunRecord}
      → find (is_owned caller id) tables.runs ≡ some row
      → load_row h tables caller row ≡ ok o
      → load h tables caller id ≡ ok o
  unfolding load
  load_pass tables caller id row f run = ground (arith, f, run)
