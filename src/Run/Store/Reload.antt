-- ===== src/Run/Store/Reload.antt =====
-- A run that run.rs has advanced is the run that it loads.
use gaugemesh.Base.{
  ℕ, ◌+◌, ◌≤◌, String, ◌≡◌, refl, sym, ap, ◌∙◌, subst, arith, not, ◌&&◌, some, List, [], ◌∷◌, ◌++◌,
  All, All-map, All-append, any, find, nat_ord, ok, err, >>=_ok, reject_if_ok, ok_or, ok_or_ok,
  ok_pair, ◌==◌, ◌!=◌, string_eq, nat_eq, option_eq, not-false, option_beq_iff,
}
use gaugemesh.Digest.{Json, Hashing}
use gaugemesh.Digest.Equality.{json_eq}
use gaugemesh.Task.{TaskRouteCaller}
use gaugemesh.Run.{sqlite, invalid, RunEvent, RunRecord, next_event, verify_run, append_event}
use gaugemesh.Run.Appending.{append_event_sound, appended}
use gaugemesh.Run.Store.{
  RunRow, JournalRow, RunTables, is_owned, is_at, update_rows, entries_of, selected_events,
  record_of, last_entry, insert_event, advanced, plan_of, load, advance_current, advance_run,
}
use gaugemesh.Run.Store.Selecting.{updated_row, find-update_rows, selected_events-append}
use gaugemesh.Run.Store.Loading.{
  IsFiled, entries_below, IsLoaded, load-IsLoaded, load_row_pass, load_pass,
}

module _ (h : Hashing) where
  last_entry-append : (xs : List RunEvent) (e : RunEvent) → last_entry (xs ++ (e ∷ [])) ≡ some e
  last_entry-append [] e = refl
  last_entry-append (x ∷ []) e = refl
  last_entry-append (x ∷ y ∷ xs) e = last_entry-append (y ∷ xs) e

  -- What an advance that succeeds has done to the current record
  abbrev pub IsAdvanced :
      RunTables → RunRecord → RunRecord → Json → String → RunRecord → RunTables → Type 0
  IsAdvanced tables old current contents kind next t =
      (current.version ≡ old.version)
      × (plan_of contents ≡ plan_of current.contents)
      × (next ≡ appended h (advanced current contents) kind)
      × (verify_run h next ≡ ok tt)
      × (next.version ≤ 512)
      × (h.encoded_len contents ≤ 2097152)
      × (t ≡ record {
        runs = update_rows tables.runs next old.version;
        run_journal =
            tables.run_journal
            ++ ((record {
              run_id = next.run_id;
              version = next.version;
              event = next_event h (advanced current contents) kind;
            })
                ∷ []);
      })

  tables_same :
      (tables t : RunTables) (sealed next : RunRecord) (version : ℕ) (journal : List JournalRow)
      (event : RunEvent)
      → next ≡ sealed
      → journal
        ≡ tables.run_journal
          ++ ((record { run_id = sealed.run_id; version = sealed.version; event = event }) ∷ [])
      → t ≡ record { runs = update_rows tables.runs sealed version; run_journal = journal }
      → t ≡ record {
        runs = update_rows tables.runs next version;
        run_journal =
            tables.run_journal
            ++ ((record { run_id = next.run_id; version = next.version; event = event }) ∷ []);
      }
  tables_same tables t sealed next version journal event same filed after = cc (same, filed, after)

  advance_current-IsAdvanced :
      (tables t : RunTables) (old current next : RunRecord) (contents : Json) (kind : String)
      → advance_current h tables old current contents kind ≡ ok (next, t)
      → IsAdvanced tables old current contents kind next t
  unfolding advance_current insert_event
  advance_current-IsAdvanced tables t old current next contents kind e =
      let (fresh, e1) = reject_if_ok (current.version != old.version) _ _ e in
      let (plan, e2) = reject_if_ok (plan_of contents != plan_of current.contents) _ _ e1 in
      let (sealed, s, e3) = >>=_ok (append_event h (advanced current contents) kind) _ e2 in
      let (_, e4) = reject_if_ok (not (any (is_at sealed.run_id old.version) tables.runs)) _ _ e3 in
      let (journal, j, e5) = >>=_ok (insert_event tables.run_journal sealed) _ e4 in
      let (last, l, j1) = >>=_ok (ok_or (last_entry sealed.journal) sqlite) _ j in
      let (_, j2) =
        reject_if_ok
          (any (λ (row : JournalRow). row.run_id == sealed.run_id && row.version == sealed.version)
            tables.run_journal)
          _ _ j1 in
      let (form, verified, bound, _, size) =
        append_event_sound h (advanced current contents) sealed kind s in
      let (same, after) =
        ok_pair sealed next
          (record { runs = update_rows tables.runs sealed old.version; run_journal = journal }) t
          e5 in
      let event = next_event h (advanced current contents) kind in
      let ends : last ≡ event = cc (
        ok_or_ok (last_entry sealed.journal) sqlite l,
        ap (λ (r : RunRecord). last_entry r.journal) form,
        last_entry-append current.journal event,
      ) in
      let filed : journal
          ≡ tables.run_journal
            ++ ((record { run_id = sealed.run_id; version = sealed.version; event = event }) ∷ []) =
        cc (j2, ends) in
      let next_form : next ≡ appended h (advanced current contents) kind = same ∙ form in
      (
        ground (arith, fresh),
        (option_beq_iff (plan_of contents) (plan_of current.contents)).0
            (not-false (plan_of contents == plan_of current.contents) plan),
        next_form,
        subst (λ q. verify_run h q ≡ ok tt) (sym same) verified,
        omega (arith, bound, ap (λ (r : RunRecord). r.version) next_form),
        size,
        tables_same tables t sealed next old.version journal event same filed after,
      )

  -- The row of an advanced run, read back, is its record.
  reloaded_same :
      (current next : RunRecord) (row : RunRow) (caller : TaskRouteCaller) (contents : Json)
      (kind : String) (before events : List RunEvent)
      → current ≡ record_of row caller before
      → next ≡ appended h (advanced current contents) kind
      → events ≡ next.journal
      → record_of (updated_row next row) caller events ≡ next
  reloaded_same current next row caller contents kind before events form next_form same =
      let whole : next ≡ appended h (advanced (record_of row caller before) contents) kind =
        next_form ∙ ap (λ c. appended h (advanced c contents) kind) form in
      subst
        (λ (n : RunRecord). events ≡ n.journal → record_of (updated_row n row) caller events ≡ n)
        (sym whole)
        (λ e.
          ap
            (record_of
              (updated_row (appended h (advanced (record_of row caller before) contents) kind) row)
              caller)
            e)
        same

  module _ (tables t : RunTables) (old next : RunRecord) (contents : Json) (kind : String)
      (filed : All IsFiled tables.run_journal)
      (advance : advance_run h tables old contents kind ≡ ok (next, t)) where
    abbrev Current : Type 0
    Current =
        (current : RunRecord) × IsLoaded h tables old.caller old.run_id current
        × IsAdvanced tables old current contents kind next t

    advance_current_of : Current
    unfolding advance_run
    advance_current_of =
        let (loaded, l, e) = >>=_ok (load h tables old.caller old.run_id) _ advance in
        let (current, c, f) = >>=_ok (ok_or loaded (invalid "GM_RUN_NOT_FOUND")) _ e in
        let same : loaded ≡ some current = ok_or_ok loaded (invalid "GM_RUN_NOT_FOUND") c in
        (
          current,
          load-IsLoaded h tables old.caller old.run_id current (l ∙ ap (λ o. ok o) same),
          advance_current-IsAdvanced tables t old current next contents kind f,
        )

    abbrev new_row : RunRecord → JournalRow
    new_row current = record {
      run_id = next.run_id;
      version = next.version;
      event = next_event h (advanced current contents) kind;
    }

    abbrev advanced_tables : RunRecord → RunTables
    advanced_tables current = record {
      runs = update_rows tables.runs next old.version;
      run_journal = tables.run_journal ++ (new_row current ∷ []);
    }

    pub load-advance_run :
        (load h t old.caller old.run_id ≡ ok (some next))
        × (next.version ≡ old.version + 1)
        × All IsFiled t.run_journal
    load-advance_run =
        let (
          current,
          (row, f, same_id, form, verified),
          (fresh, _, next_form, next_verified, bound, size, after),
        ) =
          advance_current_of in
        let event = next_event h (advanced current contents) kind in
        let id : next.run_id ≡ old.run_id =
          ap (λ (r : RunRecord). r.run_id) next_form
          ∙ ap (λ (r : RunRecord). r.run_id) form
          ∙ same_id in
        let newer : next.version ≡ old.version + 1 =
          omega (arith, ap (λ (r : RunRecord). r.version) next_form, fresh) in
        let journal : current.journal ≡ selected_events tables.run_journal next.run_id =
          ap (λ (r : RunRecord). r.journal) form
          ∙ ap (selected_events tables.run_journal) (sym id) in
        let (below, short) =
          entries_below h tables.run_journal next.run_id current filed journal verified in
        let above =
          All-map (entries_of tables.run_journal next.run_id)
            (λ x at_most. omega (arith, at_most, newer, fresh)) below in
        let selected = selected_events-append tables.run_journal (new_row current) above short in
        let found : find (is_owned old.caller old.run_id) (advanced_tables current).runs
            ≡ some (updated_row next row) =
          subst
            (λ i.
              find (is_owned old.caller i) (advanced_tables current).runs
              ≡ some (updated_row next row))
            id
            (find-update_rows tables.runs next old.version old.caller row
              (subst (λ i. find (is_owned old.caller i) tables.runs ≡ some row) (sym id) f)
              (ap (λ (r : RunRecord). r.version) (sym form) ∙ fresh)) in
        let events : selected_events (advanced_tables current).run_journal row.run_id
            ≡ next.journal =
          ap (selected_events (advanced_tables current).run_journal) (same_id ∙ sym id)
          ∙ selected
          ∙ ap (λ l. l ++ (event ∷ [])) (sym journal)
          ∙ ap (λ (r : RunRecord). r.journal) (sym next_form) in
        let record_same : record_of (updated_row next row) old.caller
              (selected_events (advanced_tables current).run_journal row.run_id)
            ≡ next =
          reloaded_same current next row old.caller contents kind
            (selected_events tables.run_journal old.run_id)
            (selected_events (advanced_tables current).run_journal row.run_id) form next_form
            events in
        let fits =
          subst (λ v. h.encoded_len v ≤ 2097152)
            (ap (λ (r : RunRecord). r.contents) (sym next_form)) size in
        let run =
          load_row_pass h (advanced_tables current) old.caller (updated_row next row) next fits
            bound record_same next_verified in
        (
          rw after (
              load_pass h (advanced_tables current) old.caller old.run_id (updated_row next row)
                found run),
          newer,
          rw after (
              All-append IsFiled tables.run_journal (new_row current ∷ []) filed
                (ap (λ (r : RunRecord). r.version) next_form, tt)),
        )

    pub advance_run_race :
        (other : Json) (other_kind : String)
        → advance_run h t old other other_kind ≡ err (invalid "GM_RUN_STALE_DRIVER")
    unfolding advance_run advance_current
    advance_run_race other other_kind =
        let (reloaded, newer, _) = load-advance_run in
        rw reloaded (stale next other other_kind newer)
      where
        stale :
            (n : RunRecord) (contents : Json) (kind : String)
            → n.version ≡ old.version + 1
            → advance_current h t old n contents kind ≡ err (invalid "GM_RUN_STALE_DRIVER")
        stale n contents kind newer = ground (arith, newer)
