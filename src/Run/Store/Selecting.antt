-- ===== src/Run/Store/Selecting.antt =====
-- What the queries of run.rs select after a row is added or changed.
use gaugemesh.Base.{
  ℕ, zero, suc, ◌≤◌, ◌<◌, String, ◌≡◌, refl, sym, ap, ◌∙◌, arith, Bool, true, false, ◌&&◌, some,
  List, [], ◌∷◌, ◌++◌, map, length, length-append, All, find, keep, take, sort_by_key,
  insert_by_key, nat_ord, ◌==◌, string_eq, nat_eq, eq_self, both, Bool-cases, inl, inr,
}
use gaugemesh.Task.{TaskRouteCaller}
use gaugemesh.Run.{RunEvent, RunRecord}
use gaugemesh.Run.Store.{
  RunRow, JournalRow, is_owned, is_at, update_row, update_rows, entries_of, selected_events,
}

module _ {A : Type 0} where
  keep-append :
      (p : A → Bool) (xs : List A) (y : A)
      → p y ≡ true
      → keep p (xs ++ (y ∷ [])) ≡ keep p xs ++ (y ∷ [])
  keep-append p [] y e = ground arith
  keep-append p (x ∷ xs) y e = ground (arith, keep-append p xs y e)

  keep-append_other :
      (p : A → Bool) (xs : List A) (y : A) → p y ≡ false → keep p (xs ++ (y ∷ [])) ≡ keep p xs
  keep-append_other p [] y e = ground arith
  keep-append_other p (x ∷ xs) y e = ground (arith, keep-append_other p xs y e)

  pub take_all : (n : ℕ) (xs : List A) → length xs ≤ n → take n xs ≡ xs
  take_all zero [] h = refl
  take_all zero (x ∷ xs) h = absurd (omega (arith, h))
  take_all (suc n) [] h = refl
  take_all (suc n) (x ∷ xs) h = ap (◌∷◌ x) (take_all n xs (omega (arith, h)))

  pub length-take_short : (n : ℕ) (xs : List A) → length (take n xs) < n → length xs < n
  length-take_short zero xs h = absurd (omega (arith, h))
  length-take_short (suc n) [] h = omega arith
  length-take_short (suc n) (x ∷ xs) h = omega (arith, length-take_short n xs (omega (arith, h)))

  module _ (key : A → ℕ) where
    insert-append :
        (x : A) (ys : List A) (z : A)
        → key x ≤ key z
        → insert_by_key key x (ys ++ (z ∷ [])) ≡ insert_by_key key x ys ++ (z ∷ [])
    unfolding insert_by_key
    insert-append x [] z h = ground arith
    insert-append x (y ∷ ys) z h = ground (arith, insert-append x ys z h)

    -- An entry that is above the others is sorted to the end.
    sort-append :
        (xs : List A) (z : A)
        → All (λ x. key x ≤ key z) xs
        → sort_by_key key (xs ++ (z ∷ [])) ≡ sort_by_key key xs ++ (z ∷ [])
    unfolding sort_by_key insert_by_key
    sort-append [] z h = refl
    sort-append (x ∷ xs) z h =
        ap (insert_by_key key x) (sort-append xs z h.1) ∙ insert-append x (sort_by_key key xs) z h.0

pub map-append :
    {A B : Type 0} (f : A → B) (xs : List A) (y : A)
    → map f (xs ++ (y ∷ [])) ≡ map f xs ++ (f y ∷ [])
map-append f [] y = refl
map-append f (x ∷ xs) y = ap (◌∷◌ (f x)) (map-append f xs y)

pub length-map : {A B : Type 0} (f : A → B) (xs : List A) → length (map f xs) ≡ length xs
length-map f [] = refl
length-map f (x ∷ xs) = ap suc (length-map f xs)

abbrev pub version_of : JournalRow → ℕ
version_of row = row.version

abbrev pub event_of : JournalRow → RunEvent
event_of row = row.event

-- One more event above those of its run, which are not more than 512, is the last one selected.
pub selected_events-append :
    (rows : List JournalRow) (row : JournalRow)
    → All (λ (x : JournalRow). x.version ≤ row.version) (entries_of rows row.run_id)
    → length (selected_events rows row.run_id) < 514
    → selected_events (rows ++ (row ∷ [])) row.run_id
      ≡ selected_events rows row.run_id ++ (row.event ∷ [])
selected_events-append rows row above short =
    let entries = entries_of rows row.run_id in
    let sorted = sort_by_key version_of entries in
    let fits : length sorted < 514 =
      length-take_short 514 sorted (omega (arith, length-map event_of (take 514 sorted), short)) in
    let whole : take 514 sorted ≡ sorted = take_all 514 sorted (omega (arith, fits)) in
    let extended : take 514 (sorted ++ (row ∷ [])) ≡ sorted ++ (row ∷ []) =
      take_all 514 (sorted ++ (row ∷ [])) (omega (arith, length-append sorted (row ∷ []), fits)) in
    ap (λ l. map event_of (take 514 (sort_by_key version_of l)))
      (keep-append (λ (x : JournalRow). x.run_id == row.run_id) rows row (eq_self row.run_id))
    ∙ ap (λ l. map event_of (take 514 l)) (sort-append version_of entries row above)
    ∙ ap (map event_of) extended
    ∙ map-append event_of sorted row
    ∙ ap (λ l. map event_of l ++ (row.event ∷ [])) (sym whole)

-- The events of other runs are not selected.
pub selected_events-append_other :
    (rows : List JournalRow) (row : JournalRow) (id : String)
    → (row.run_id == id) ≡ false
    → selected_events (rows ++ (row ∷ [])) id ≡ selected_events rows id
selected_events-append_other rows row id apart =
    ap (λ l. map event_of (take 514 (sort_by_key version_of l)))
      (keep-append_other (λ (x : JournalRow). x.run_id == id) rows row apart)

-- The row that an update leaves of the row that it finds
abbrev pub updated_row : RunRecord → RunRow → RunRow
updated_row next row = record row { version = next.version; document = next.contents }

is_owned-update_row :
    (next : RunRecord) (version : ℕ) (caller : TaskRouteCaller) (id : String) (r : RunRow)
    → is_owned caller id (update_row next version r) ≡ is_owned caller id r
is_owned-update_row next version caller id r = elim (Bool-cases (is_at next.run_id version r)) [
  | inl here ↦ rw here refl
  | inr other ↦ rw other refl
]

-- An update of the row of a run leaves its row in place.
pub find-update_rows :
    (rows : List RunRow) (next : RunRecord) (version : ℕ) (caller : TaskRouteCaller) (row : RunRow)
    → find (is_owned caller next.run_id) rows ≡ some row
    → row.version ≡ version
    → find (is_owned caller next.run_id) (update_rows rows next version)
      ≡ some (updated_row next row)
find-update_rows [] next version caller row f v = cc
find-update_rows (r ∷ rows) next version caller row f v =
    let kept = is_owned-update_row next version caller next.run_id r in
    elim (Bool-cases (is_owned caller next.run_id r)) [
      | inl owned ↦
          let same : r ≡ row = cc (f, owned) in
          let (front, tenant) =
            both (r.run_id == next.run_id && r.principal == caller.principal)
              (r.tenant == caller.tenant) owned in
          let (id, principal) =
            both (r.run_id == next.run_id) (r.principal == caller.principal) front in
          let at_version : (r.version == version) ≡ true =
            ground (arith, ap (λ (x : RunRow). x.version) same) in
          let here : is_at next.run_id version r ≡ true = ground (arith, id, at_version) in
          let changed : update_row next version r ≡ updated_row next r = rw here refl in
          rw (kept, owned, changed, same) refl
      | inr other ↦
          rw (kept, other)
            (find-update_rows rows next version caller row (ground (arith, f, other)) v)
    ]
