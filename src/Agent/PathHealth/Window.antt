-- ===== src/Agent/PathHealth/Window.antt =====
-- The verdict on the path is that on the checks of the last minute at most.
pub mod Resets
use radar_node.Base.{
  ℕ, ◌+◌, ◌*◌, ◌≤◌, ◌<◌, ◌≡◌, refl, arith, ◌⊎◌, ◌↔◌, inl, inr, Bool, true, false, Bool-cases, subst,
  sym, String, List, [], ◌∷◌, leb, str_eq, if◌then◌else◌, length, retain, All, tests, leb→le,
  leb→gt, le→leb, ap, ◌∙◌,
}
use radar_node.Module.Placeholder.{Text}
use radar_node.Agent.PathHealth.Targets.{
  distinct_targets, tracked, length-distinct_targets-le, enough_targets,
}
use radar_node.Agent.PathHealth.{
  Check, PathHealth, new_path_health, reset, is_misconfigured, is_degraded, state,
  path_health_window, is_network_error, counted, record_check,
}
use radar_node.Agent.PathHealth.Window.Resets.{
  checked, asked, Event, time, Ordered, informative, performed, failed, Degraded, since, summary,
  last_time, IsWindow, reset-IsWindow, reset-begun,
}

module _ (lower : Text → Text) where
  counted-summary :
      (c : Check) (start : ℕ) (cs : List Check)
      → counted lower c (summary lower start cs) ≡ summary lower start (c ∷ cs)
  unfolding counted
  counted-summary c start cs = ground arith

  counted-IsWindow :
      (c : Check) (cs : List Check) (p : PathHealth)
      → 0 < p.window_start
      → IsWindow lower cs c.at p
      → IsWindow lower (c ∷ cs) c.at (counted lower c p)
  unfolding counted
  counted-IsWindow c cs p pos w = record {
    latest = (omega arith, w.latest);
    begun = elim w.begun [ inl (z, e) ↦ absurd (omega arith) | inr h ↦ inr h ];
    counts = elim w.begun [
      | inl (z, e) ↦ absurd (omega arith)
      | inr h ↦ rw (le→leb p.window_start c.at h.1) (
          ap (counted lower c) w.counts
          ∙ counted-summary c p.window_start (since lower p.window_start cs))
    ];
  }

  last_time-le : (e : ℕ) (es : List Event) → All (λ d. time d ≤ e) es → last_time lower es ≤ e
  last_time-le e [] all = omega arith
  last_time-le e (checked c ∷ es) all = ground (arith, last_time-le e es all.1)
  last_time-le e (asked now ∷ es) all = all.0

  performed-IsWindow :
      (es : List Event)
      → Ordered es
      → IsWindow lower (informative es) (last_time lower es) (performed lower es)
  unfolding record_check state
  performed-IsWindow [] h = record { latest = tt; begun = inl (refl, refl); counts = refl }
  performed-IsWindow (checked c ∷ es) h = elim (Bool-cases (is_misconfigured c.err_code)) [
    | inl e ↦ rw e (performed-IsWindow es h.2)
    | inr e ↦ rw e (
        counted-IsWindow c (informative es) (reset c.at (performed lower es))
          (reset-begun lower c.at (performed lower es) h.1)
          (reset-IsWindow lower (informative es) (last_time lower es) c.at (performed lower es) h.1
            (last_time-le c.at es h.0) (performed-IsWindow es h.2)))
  ]
  performed-IsWindow (asked now ∷ es) h =
      reset-IsWindow lower (informative es) (last_time lower es) now (performed lower es) h.1
        (last_time-le now es h.0) (performed-IsWindow es h.2)

  is_degraded-Degraded :
      (start : ℕ) (cs : List Check)
      → (is_degraded (summary lower start cs) ≡ true) ↔ Degraded lower cs
  unfolding is_degraded
  is_degraded-Degraded start cs = (
    λ e. ground (arith, enough_targets cs),
    λ h. ground (arith, enough_targets cs, length-distinct_targets-le cs),
  )

  says_degraded :
      (b : Bool) → (◌≡◌ {A = String} (if b then "degraded" else "ok") "degraded") ↔ (b ≡ true)
  says_degraded true = (λ e. refl, λ e. refl)
  says_degraded false = (λ e. ap (λ (s : String). str_eq s "degraded") e, λ e. cc)

  verdict :
      (p : PathHealth) (cs : List Check) (last : ℕ)
      → IsWindow lower cs last p
      → (is_degraded p ≡ true) ↔ Degraded lower (since lower p.window_start cs)
  verdict p cs last w =
      subst (λ q. (is_degraded q ≡ true) ↔ Degraded lower (since lower p.window_start cs))
        (sym w.counts) (is_degraded-Degraded p.window_start (since lower p.window_start cs))

  asked-IsWindow :
      (now : ℕ) (es : List Event)
      → Ordered (asked now ∷ es)
      → IsWindow lower (informative es) now (reset now (performed lower es))
  asked-IsWindow now es h =
      reset-IsWindow lower (informative es) (last_time lower es) now (performed lower es) h.1
        (last_time-le now es h.0) (performed-IsWindow es h.2)

  window_bounds :
      (p : PathHealth) (cs : List Check) (now : ℕ)
      → IsWindow lower cs now p
      → 0 < p.window_start
      → (p.window_start ≤ now) × (now < p.window_start + path_health_window)
  window_bounds p cs now w pos = elim w.begun [
    | inl (z, e) ↦ absurd (omega arith)
    | inr h ↦ (h.1, h.2)
  ]

  -- After any checks and questions in the order of their instants, the state is "degraded" exactly
  -- when, of the informative checks since lower the start of the window, at least seven in ten failed lower in the
  -- network and the targets are at least five; the window began less than a minute ago.
  pub state-degraded :
      (now : ℕ) (es : List Event)
      → Ordered (asked now ∷ es)
      → let answer : PathHealth × String = state now (performed lower es) in
        (answer.0.window_start ≤ now)
        × (now < answer.0.window_start + path_health_window)
        × ((answer.1 ≡ "degraded")
            ↔ Degraded lower (retain (λ c. leb answer.0.window_start c.at) (informative es)))
  unfolding state
  state-degraded now es h =
      let p : PathHealth = reset now (performed lower es) in
      let w : IsWindow lower (informative es) now p = asked-IsWindow now es h in
      let bounds =
        window_bounds p (informative es) now w (reset-begun lower now (performed lower es) h.1) in
      let says = says_degraded (is_degraded p) in
      let means = verdict p (informative es) now w in
      (bounds.0, bounds.1, (λ e. means.0 (says.0 e), λ d. says.1 (means.1 d)))
