-- ===== src/Hosting/SupervisorHost/Released.antt =====
-- recipes/hosting/supervisor_host.py: nobody waits for ever on a host, and each failure is reported once.
use chrono_daemon.Common.{
  Bool, Bool-cases, Option, Option-cases, ap, arith, false, if◌then◌else◌, inl, inr, none, refl,
  some, suc, true, ℕ, ◌+◌, ◌∙◌, ◌≡◌,
}
use chrono_daemon.Hosting.SupervisorHost.{
  HostBox, RunWorld, begin_start, begin_stop, caught, end_start, end_stop, finish, inner, is_ready,
  run_host, startup_fails, wind_down, with_block,
}

-- Does _run come to set `_ready` in the block itself?
unfoldable pub becomes_ready : RunWorld → Bool
becomes_ready w = elim w.enters [
  | some e ↦ false
  | none ↦ elim (startup_fails w) [ some e ↦ false | none ↦ true ]
]

module _ (w : RunWorld) where
  -- A failure after the start is raised by _run itself, one before it is left for `start`.
  abbrev pub Reported : Bool → Option ℕ → Option ℕ × HostBox → Type 0
  Reported true x r = (r.0 ≡ x) × (r.1.startup_error ≡ none)
  Reported false x r = (r.0 ≡ none) × (r.1.startup_error ≡ x)

  abbrev Marked : Bool → HostBox → HostBox → Type 0
  Marked b h h' =
      (h'.ready ≡ some b) × (h'.startup_error ≡ h.startup_error) × (h'.started ≡ h.started)

  wind_down-Marked :
      (b : Bool) (h : HostBox) (r : Option ℕ × HostBox)
      → Marked b h r.1
      → Marked b h (wind_down w r).1
  unfolding wind_down
  wind_down-Marked b h r m = elim (Option-cases w.on_stopping) [
    | inl e ↦ rw (e, wind_down) m
    | inr (c, e) ↦ rw (e, wind_down) m
  ]

  with_block-Marked :
      (h : HostBox) → h.ready ≡ some false → Marked (becomes_ready w) h (with_block w h).1
  unfolding with_block becomes_ready inner
  with_block-Marked h f = elim (Option-cases w.enters) [
    | inr (e, q) ↦ simp (q, with_block, becomes_ready) (f, refl, refl)
    | inl q ↦ elim (Option-cases (startup_fails w)) [
      | inr (e, s) ↦
          simp (q, s, with_block, becomes_ready, inner)
            (wind_down-Marked false h (some e, h) (f, refl, refl))
      | inl s ↦
          simp (q, s, with_block, becomes_ready, inner)
            (wind_down-Marked true h (w.waits_stop, record h { ready = some true })
              (refl, refl, refl))
    ]
  ]

  caught-Reported :
      (b : Bool) (h : HostBox) (r : Option ℕ × HostBox)
      → h.startup_error ≡ none
      → Marked b h r.1
      → Reported b r.0 (finish w (caught w r))
  unfolding caught finish is_ready
  caught-Reported true h (none, h1) f m = (refl, m.1 ∙ f)
  caught-Reported false h (none, h1) f m = (refl, m.1 ∙ f)
  caught-Reported true h (some e, h1) f m = simp (m.0, caught, is_ready) (refl, m.1 ∙ f)
  caught-Reported false h (some e, h1) f m = simp (m.0, caught, is_ready) (refl, refl)

  -- Whatever fails while a started host runs, by an exception or a cancellation: at its end both
  -- events are set, so that neither `start` nor `stop` waits for ever, and what the `async with` block
  -- raised is reported exactly once, by `start` if the host never became ready, and by the task
  -- otherwise.
  pub run_host_reports :
      (h : HostBox)
      → h.ready ≡ some false
      → h.startup_error ≡ none
      → let r = run_host w h in
        (r.1.ready ≡ some true)
        × (r.1.done ≡ some true)
        × Reported (becomes_ready w) (with_block w h).0 r
  unfolding run_host finish
  run_host_reports h f s =
      (refl, refl, caught-Reported (becomes_ready w) h (with_block w h) s (with_block-Marked h f))

  abbrev pub callbacks : ℕ
  callbacks = elim w.on_stopping [ none ↦ 0 | some c ↦ 1 ]

  Called : HostBox → HostBox → Type 0
  Called h h' =
      (h'.stop_calls ≡ suc h.stop_calls) × (h'.callback_calls ≡ callbacks + h.callback_calls)

  wind_down-Called :
      (h : HostBox) (r : Option ℕ × HostBox)
      → r.1.stop_calls ≡ h.stop_calls
      → r.1.callback_calls ≡ h.callback_calls
      → Called h (wind_down w r).1
  unfolding wind_down Called
  wind_down-Called h r s c = elim (Option-cases w.on_stopping) [
    | inl e ↦ rw (e, wind_down) (ap suc s, omega arith)
    | inr (d, e) ↦ rw (e, wind_down) (ap suc s, omega arith)
  ]

  caught-Called :
      (h : HostBox) (r : Option ℕ × HostBox) → Called h r.1 → Called h (finish w (caught w r)).1
  unfolding caught finish Called
  caught-Called h (none, h1) c = c
  caught-Called h (some e, h1) c = elim (Bool-cases (is_ready w h1)) [
    | inl q ↦ rw q c
    | inr q ↦ rw q c
  ]

  -- Once the supervisor was entered, its stop is called exactly once, and on_stopping exactly once if
  -- there is one, however the start, the wait for the stop signal or on_stopping itself ended.
  run_host_stops_once :
      (h : HostBox)
      → w.enters ≡ none
      → let r = run_host w h in
        (r.1.stop_calls ≡ suc h.stop_calls) × (r.1.callback_calls ≡ callbacks + h.callback_calls)
  unfolding run_host with_block inner Called
  run_host_stops_once h q =
      caught-Called h (with_block w h) (elim (Option-cases (startup_fails w)) [
        | inr (e, s) ↦ simp (q, s, with_block, inner) (wind_down-Called h (some e, h) refl refl)
        | inl s ↦
            simp (q, s, with_block, inner)
              (wind_down-Called h (w.waits_stop, record h { ready = some true }) refl refl)
      ])

  -- One life of a host: start, _run to its end, and stop.
  unfoldable pub life : HostBox → Option ℕ × HostBox
  unfolding begin_start run_host end_start begin_stop end_stop
  life h =
      let h1 = (begin_start h).1 in
      let r = run_host w h1 in
      let (x, h2) = end_start r.1 in
      let (waits, h3) = begin_stop h2 in (x, if waits then end_stop h3 else h3)

  ends_unstarted :
      (x : HostBox)
      → (if (begin_stop x).0 then end_stop (begin_stop x).1 else (begin_stop x).1).started ≡ false
  unfolding begin_stop end_stop
  ends_unstarted x = elim (Bool-cases x.started) [
    | inl e ↦ simp (e, begin_stop, end_stop) refl
    | inr e ↦ simp (e, begin_stop, end_stop) refl
  ]

  -- A host that is not started can be started, and when its life is over it is so again, whether the
  -- start failed or a stop ended it.
  life_starts_over :
      (h : HostBox) → h.started ≡ false → ((begin_start h).0 ≡ true) × ((life h).1.started ≡ false)
  unfolding life begin_start end_start begin_stop end_stop
  life_starts_over h f =
      (simp f refl, ends_unstarted (end_start (run_host w (begin_start h).1).1).1)
