-- ===== src/Store/Sequences.antt =====
-- The numbers that internal/store/sequences.go hands out, against the unique constraint on a
-- journal row's origin and number.
use radar_node.Base.{
  suc, true, ◌++◌, if◌then◌else◌, any-append, ℕ, ◌+◌, ◌≤◌, ◌<◌, ◌≡◌, refl, String, Bool, false,
  ◌&&◌, List, [], ◌∷◌, Option, none, some, arith, leb, str_eq, eq_refl, any, lookup, insert,
  lookup-insert,
}
use radar_node.Store.{
  new_row, insert_journal, Store, JournalRow, Body, conflicts, same_body, next_origin_seq,
}

-- Some row of this origin has a number of at least `n`.
abbrev pub reaches : String → ℕ → List JournalRow → Bool
reaches origin n rows = any (λ r. str_eq r.origin origin && leb n r.origin_seq) rows

-- Some row of this origin holds the same result.
abbrev pub holds : String → Body → List JournalRow → Bool
holds origin body rows = any (λ r. str_eq r.origin origin && same_body r.body body) rows

abbrev pub first_free : Option ℕ → ℕ
first_free none = 1
first_free (some n) = n

abbrev pub next_of : Store → ℕ
next_of s = first_free (lookup s.origin s.sequences)

-- Every number of this origin in the journal is below the next one to hand out.
abbrev pub IsSequenced : Store → Type 0
IsSequenced s = reaches s.origin (next_of s) s.journal ≡ false

pub reaches_mono :
    (origin : String) (m n : ℕ) (rows : List JournalRow)
    → m ≤ n
    → reaches origin m rows ≡ false
    → reaches origin n rows ≡ false
reaches_mono origin m n [] le h = refl
reaches_mono origin m n (r ∷ rows) le h = ground (arith, reaches_mono origin m n rows le)

-- A number that no row reaches conflicts by its result only.
pub conflicts-holds :
    (row : JournalRow) (rows : List JournalRow)
    → reaches row.origin row.origin_seq rows ≡ false
    → any (conflicts row) rows ≡ holds row.origin row.body rows
conflicts-holds row [] h = refl
conflicts-holds row (r ∷ rows) h = ground (arith, conflicts-holds row rows)

pub record Reserved (count : ℕ) (s t : Store) : Type 0 where
  pub same_origin : t.origin ≡ s.origin
  pub same_journal : t.journal ≡ s.journal
  pub advanced : next_of t ≡ next_of s + count
  pub same_pending : t.pending_triggers ≡ s.pending_triggers
  pub same_completed : t.completed_triggers ≡ s.completed_triggers
  pub same_rowid : t.next_rowid ≡ s.next_rowid
  pub same_probes : t.probes ≡ s.probes
  pub same_hash : t.probe_hash ≡ s.probe_hash

-- A reservation of at least one number succeeds, begins at the first free one, and moves only that.
pub next_origin_seq_lem :
    (count : ℕ) (s : Store)
    → 0 < count
    → (t : Store) × (next_origin_seq count s ≡ some (next_of s, t)) × Reserved count s t
unfolding next_origin_seq
next_origin_seq_lem count s pos = (
  record s { sequences = insert s.origin (next_of s + count) s.sequences },
  ground arith,
  ground (arith, lookup-insert s.origin s.origin (next_of s + count) s.sequences, eq_refl s.origin),
)

abbrev pub with_row : ℕ → ℕ → Body → Store → Store
with_row origin_seq at_ms body s = record s {
  journal = s.journal ++ new_row origin_seq at_ms body s ∷ [];
  next_rowid = suc s.next_rowid;
}

-- An insert under a free number fails exactly when the result is in the journal already.
pub insert_journal_lem :
    (origin_seq at_ms : ℕ) (body : Body) (s : Store)
    → reaches s.origin origin_seq s.journal ≡ false
    → insert_journal origin_seq at_ms body s
      ≡ (if holds s.origin body s.journal then none else some (with_row origin_seq at_ms body s))
unfolding insert_journal
insert_journal_lem origin_seq at_ms body s free =
    ground (arith, conflicts-holds (new_row origin_seq at_ms body s) s.journal)

pub reaches-with_row :
    (origin_seq at_ms : ℕ) (body : Body) (s : Store)
    → reaches s.origin origin_seq s.journal ≡ false
    → reaches s.origin (suc origin_seq) (with_row origin_seq at_ms body s).journal ≡ false
unfolding new_row
reaches-with_row origin_seq at_ms body s free = ground (
  arith,
  any-append (λ (r : JournalRow). str_eq r.origin s.origin && leb (suc origin_seq) r.origin_seq)
      s.journal (new_row origin_seq at_ms body s ∷ []),
  reaches_mono s.origin origin_seq (suc origin_seq) s.journal,
)

pub holds-append :
    (origin : String) (body : Body) (rows more : List JournalRow)
    → holds origin body rows ≡ true
    → holds origin body (rows ++ more) ≡ true
holds-append origin body rows more h = ground (
  arith,
  any-append (λ (r : JournalRow). str_eq r.origin origin && same_body r.body body) rows more,
)
