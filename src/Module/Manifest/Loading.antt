-- ===== src/Module/Manifest/Loading.antt =====
-- The modules that LoadFS of internal/module/module.go loads.
use mathlib.Core.List.{head-eq_of_cons-eq, tail-eq_of_cons-eq}
use radar_node.Base.{
  ◌≡◌, refl, sym, ap, ◌∙◌, subst, ◌↔◌, inl, inr, arith, false, String, Option, none, some,
  Option-cases, List, [], ◌∷◌, map, All, sort, retain,
}
use radar_node.Module.Placeholder.{Text, same_text}
use radar_node.Module.Manifest.{
  Manifest, validate, Entry, Loaded, loaded, load_failed, prepend, definer, is_module_file,
  text_less, load_files, load_fs,
}
use radar_node.Module.Manifest.Spec.{IsValid}
use radar_node.Module.Manifest.Valid.{validate-IsValid}

-- No two modules have one name.
abbrev pub AreDistinct : List Manifest → Type 0
AreDistinct [] = Unit
AreDistinct (m ∷ ms) = All (λ n. same_text m.name n.name ≡ false) ms × AreDistinct ms

-- The files of a directory that hold modules, in the order of their names.
abbrev pub module_files : List Entry → List Entry
module_files es = sort (λ a b. text_less a.file b.file) (retain is_module_file es)

abbrev Unseen : List (Text × Text) → List Manifest → Type 0
Unseen seen ms = All (λ m. definer m.name seen ≡ none) ms

unloaded : Loaded → List Manifest
unloaded (loaded ms) = ms
unloaded (load_failed e) = []

prepend-loaded :
    (m : Manifest) (l : Loaded) (ms : List Manifest)
    → prepend m l ≡ loaded ms
    → (rest : List Manifest) × (l ≡ loaded rest) × (ms ≡ m ∷ rest)
unfolding unloaded
prepend-loaded m (loaded rest) ms e = (rest, refl, sym (ap unloaded e))
prepend-loaded m (load_failed x) ms e = absurd (ground (arith, e))

-- What a name is not before and after one more name.
Unseen-split :
    (name file : Text) (seen : List (Text × Text)) (ms : List Manifest)
    → Unseen ((name, file) ∷ seen) ms
    → Unseen seen ms × All (λ n. same_text name n.name ≡ false) ms
Unseen-split name file seen [] h = (tt, tt)
Unseen-split name file seen (m ∷ ms) h =
    let (rest, others) = Unseen-split name file seen ms h.1 in
    ((ground (arith, h.0), rest), (ground (arith, h.0), others))

Unseen-join :
    (name file : Text) (seen : List (Text × Text)) (ms : List Manifest)
    → Unseen seen ms
    → All (λ n. same_text name n.name ≡ false) ms
    → Unseen ((name, file) ∷ seen) ms
Unseen-join name file seen [] h k = tt
Unseen-join name file seen (m ∷ ms) h k = (rw k.0 h.0, Unseen-join name file seen ms h.1 k.1)

module _ (groups : String → Option (List String)) where
  abbrev Loads : List (Text × Text) → List Entry → List Manifest → Type 0
  Loads seen es ms =
      (map (λ e. e.parsed) es ≡ map some ms)
      × All (IsValid groups) ms
      × AreDistinct ms
      × Unseen seen ms

  load_files-Loads :
      (seen : List (Text × Text)) (es : List Entry) (ms : List Manifest)
      → load_files groups seen es ≡ loaded ms
      → Loads seen es ms
  unfolding load_files unloaded
  load_files-Loads seen [] ms h = subst (Loads seen []) (ap unloaded h) (refl, tt, tt, tt)
  load_files-Loads seen (e ∷ es) ms h = elim (Option-cases e.parsed) [
    | inl bad ↦ absurd (ground (arith, h, bad))
    | inr (m, p) ↦ elim (Option-cases (validate groups m)) [
      | inr (err, v) ↦ absurd (ground (arith, h, p, v))
      | inl fine ↦ elim (Option-cases (definer m.name seen)) [
        | inr (prior, d) ↦ absurd (ground (arith, h, p, fine, d))
        | inl free ↦
            let (rest, loads, eq) =
              prepend-loaded m (load_files groups ((m.name, e.file) ∷ seen) es) ms
                (ground (arith, h, p, fine, free)) in
            let (parsed, valid, distinct, unseen) =
              load_files-Loads ((m.name, e.file) ∷ seen) es rest loads in
            let (before, others) = Unseen-split m.name e.file seen rest unseen in
            subst (Loads seen (e ∷ es)) (sym eq) (
              ap (λ o. o ∷ map (λ x. x.parsed) es) p ∙ ap (◌∷◌ (some m)) parsed,
              ((validate-IsValid groups m).0 fine, valid),
              (others, distinct),
              (free, before),
            )
      ]
    ]
  ]

  Loads-load_files :
      (seen : List (Text × Text)) (es : List Entry) (ms : List Manifest)
      → Loads seen es ms
      → load_files groups seen es ≡ loaded ms
  unfolding load_files
  Loads-load_files seen [] [] h = refl
  Loads-load_files seen [] (m ∷ ms) h = absurd (ground (arith, h.0))
  Loads-load_files seen (e ∷ es) [] h = absurd (ground (arith, h.0))
  Loads-load_files seen (e ∷ es) (m ∷ ms) (parsed, valid, distinct, unseen) =
      let p = head-eq_of_cons-eq parsed in
      let v = (validate-IsValid groups m).1 valid.0 in
      let rest = Loads-load_files ((m.name, e.file) ∷ seen) es ms (
        tail-eq_of_cons-eq parsed,
        valid.1,
        distinct.1,
        Unseen-join m.name e.file seen ms unseen.1 distinct.0,
      ) in
      ground (arith, p, v, unseen.0, rest)

  no_names : (ms : List Manifest) → Unseen [] ms
  no_names [] = tt
  no_names (m ∷ ms) = (refl, no_names ms)

  -- A directory loads exactly when its module files, in the order of their names, all parse to valid
  -- modules of which no two have one name; these are then what it loads.
  pub load_fs-loaded :
      (es : List Entry) (ms : List Manifest)
      → (load_fs groups es ≡ loaded ms) ↔ (
          (map (λ e. e.parsed) (module_files es) ≡ map some ms)
          × All (IsValid groups) ms
          × AreDistinct ms)
  unfolding load_fs
  load_fs-loaded es ms = (
    λ h. let l = load_files-Loads [] (module_files es) ms h in (l.0, l.1, l.2),
    λ h. Loads-load_files [] (module_files es) ms (h.0, h.1, h.2, no_names ms),
  )
