-- ===== src/Store/Rebuild/Rows.antt =====
-- The replay of internal/store/probes.go's `Rebuild`, row by row.
use radar_node.Base.{
  ◌≡◌, refl, sym, inl, inr, Bool-cases, ap, ◌∙◌, String, Bool, true, List, [], ◌∷◌, ◌++◌, map,
  Option, none, some, arith, any, any-append, retain, All, str_eq, lookup,
}
use radar_node.Wire.{ProbeSnapshot}
use radar_node.Store.{Store, JournalRow, ProbeRow}
use radar_node.Store.Triggers.{decodes}
use radar_node.Store.Probes.{
  rebuild_event, rebuild_row, rebuild_rows, cleared, insert_probes, schedule_of,
}

-- What a rebuild reproduces of a store.
pub record Projected (s t : Store) : Type 0 where
  pub same_pending : t.pending_triggers ≡ s.pending_triggers
  pub same_completed : t.completed_triggers ≡ s.completed_triggers
  pub same_hash : t.probe_hash ≡ s.probe_hash

-- A replay of the journal over any cleared store gives the store's own projections.
pub record IsJournaled (s : Store) : Type 0 where
  pub replays :
      (b : Store)
      → (t : Store) × (rebuild_rows s.journal (some (cleared b)) ≡ some t) × Projected s t
  pub decodable : All (λ p. decodes p ≡ true) s.pending_triggers

pub rebuild_rows-snoc :
    (rows : List JournalRow) (row : JournalRow) (s : Option Store)
    → rebuild_rows (rows ++ row ∷ []) s ≡ rebuild_rows (row ∷ []) (rebuild_rows rows s)
unfolding rebuild_rows
rebuild_rows-snoc [] row s = refl
rebuild_rows-snoc (x ∷ rows) row s = rebuild_rows-snoc rows row _

-- A change of the delivery columns does not show.
abbrev pub SameEvent : JournalRow → JournalRow → Type 0
SameEvent r q = (q.seq ≡ r.seq) × (q.at_ms ≡ r.at_ms) × (q.body ≡ r.body)

rebuild_row-same :
    (r q : JournalRow) (s : Store) → SameEvent r q → rebuild_row q s ≡ rebuild_row r s
rebuild_row-same r q s (a, b, c) = λ i. rebuild_event (c i) (a i) (b i) s

pub rebuild_rows-map :
    (f : JournalRow → JournalRow)
    → ((r : JournalRow) → SameEvent r (f r))
    → (rows : List JournalRow) (s : Option Store)
    → rebuild_rows (map f rows) s ≡ rebuild_rows rows s
unfolding rebuild_rows
rebuild_rows-map f same [] s = refl
rebuild_rows-map f same (r ∷ rows) none = rebuild_rows-map f same rows none
rebuild_rows-map f same (r ∷ rows) (some s) =
    rebuild_rows-map f same rows (rebuild_row (f r) s)
    ∙ ap (rebuild_rows rows) (rebuild_row-same r (f r) s (same r))

-- Only the journal and the three projections matter.
pub IsJournaled-same :
    (s t : Store)
    → ((b : Option Store) → rebuild_rows t.journal b ≡ rebuild_rows s.journal b)
    → Projected s t
    → IsJournaled s
    → IsJournaled t
IsJournaled-same s t rows v j = record {
  replays = λ b.
      let (u, e, w) = j.replays b in
      (
        u,
        rows (some (cleared b)) ∙ e,
        record {
          same_pending = w.same_pending ∙ sym v.same_pending;
          same_completed = w.same_completed ∙ sym v.same_completed;
          same_hash = w.same_hash ∙ sym v.same_hash;
        },
      );
  decodable = rw v.same_pending j.decodable;
}

-- A new row, whose replay does to the projections what the method did.
pub IsJournaled-row :
    (s t : Store) (row : JournalRow)
    → t.journal ≡ s.journal ++ row ∷ []
    → ((u : Store) → Projected s u → (v : Store) × (rebuild_row row u ≡ some v) × Projected t v)
    → All (λ p. decodes p ≡ true) t.pending_triggers
    → IsJournaled s
    → IsJournaled t
unfolding rebuild_rows
IsJournaled-row s t row grown replay readable j = record {
  replays = λ b.
      let (u, e, w) = j.replays b in
      let (v, e', w') = replay u w in
      (
        v,
        ap (λ rows. rebuild_rows rows (some (cleared b))) grown
            ∙ rebuild_rows-snoc s.journal row (some (cleared b))
            ∙ ap (rebuild_rows (row ∷ [])) e
            ∙ e',
        w',
      );
  decodable = readable;
}

abbrev has_key : String → List (String × ProbeRow) → Bool
has_key id rows = any (λ row. str_eq row.0 id) rows

-- Whether the inserts succeed depends on the ids alone.
insert_probes-ids :
    (old old' : List (String × ProbeRow)) (ps : List ProbeSnapshot)
    (next next' : List (String × ProbeRow))
    → ((id : String) → has_key id next' ≡ has_key id next)
    → (done : List (String × ProbeRow)) → insert_probes old ps next ≡ some done
    → (done' : List (String × ProbeRow)) × (insert_probes old' ps next' ≡ some done')
unfolding insert_probes
insert_probes-ids old old' [] next next' same done e = (next', refl)
insert_probes-ids old old' (p ∷ ps) next next' same done e = elim (Bool-cases (has_key p.id next)) [
  | inl twice ↦ cc
  | inr new ↦
      let (done', e') =
        insert_probes-ids old old' ps (next ++ (p.id, schedule_of (lookup p.id old) p) ∷ [])
          (next' ++ (p.id, schedule_of (lookup p.id old') p) ∷ []) (λ id. grown id) done
          (rw (new, insert_probes) at e) in
      (done', rw (same p.id ∙ new, insert_probes) e')
]
  where
    grown :
        (id : String)
        → has_key id (next' ++ (p.id, schedule_of (lookup p.id old') p) ∷ [])
          ≡ has_key id (next ++ (p.id, schedule_of (lookup p.id old) p) ∷ [])
    grown id = ground (
      arith,
      same id,
      any-append (λ (row : String × ProbeRow). str_eq row.0 id) next'
          ((p.id, schedule_of (lookup p.id old') p) ∷ []),
      any-append (λ (row : String × ProbeRow). str_eq row.0 id) next
          ((p.id, schedule_of (lookup p.id old) p) ∷ []),
    )

pub insert_probes_any :
    (old : List (String × ProbeRow)) (ps : List ProbeSnapshot) (done : List (String × ProbeRow))
    → insert_probes old ps [] ≡ some done
    → (done' : List (String × ProbeRow)) × (insert_probes [] ps [] ≡ some done')
insert_probes_any old ps done e = insert_probes-ids old [] ps [] [] (λ id. refl) done e

module _ {ℓ} {A : Type ℓ} where
  pub retain-retain : (p : A → Bool) (xs : List A) → retain p (retain p xs) ≡ retain p xs
  retain-retain p [] = refl
  retain-retain p (x ∷ xs) = elim (Bool-cases (p x)) [
    | inl keep ↦ rw (keep, keep) (ap (◌∷◌ x) (retain-retain p xs))
    | inr gone ↦ rw gone (retain-retain p xs)
  ]

  module _ (q : A → Bool) where
    pub All-retain :
        (p : A → Bool) (xs : List A)
        → All (λ x. q x ≡ true) xs
        → All (λ x. q x ≡ true) (retain p xs)
    All-retain p [] h = tt
    All-retain p (x ∷ xs) h = elim (Bool-cases (p x)) [
      | inl keep ↦ rw keep (h.0, All-retain p xs h.1)
      | inr gone ↦ rw gone (All-retain p xs h.1)
    ]

    pub All-snoc :
        (xs : List A) (x : A)
        → All (λ y. q y ≡ true) xs
        → q x ≡ true
        → All (λ y. q y ≡ true) (xs ++ x ∷ [])
    All-snoc [] x h e = (e, tt)
    All-snoc (y ∷ xs) x h e = (h.0, All-snoc xs x h.1 e)

    pub retain-All : (xs : List A) → All (λ x. q x ≡ true) xs → retain q xs ≡ xs
    retain-All [] h = refl
    retain-All (x ∷ xs) h = rw h.0 (ap (◌∷◌ x) (retain-All xs h.1))
