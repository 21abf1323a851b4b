-- ===== src/Observability/Metrics/Stages.antt =====
-- The longest duration of a stage.
use alfa_hackaton.Prelude.{
  ℕ, ◌-◌, ◌*◌, ◌/◌, ◌≡◌, refl, ◌∙◌, List, [], ◌∷◌, Text, text_eq, text_eq_iff, text_eq_refl, ltb,
  if◌then◌else◌, arith, inl, inr, Bool-cases,
}
use alfa_hackaton.Prelude.Dict.{lookup-insert}
use alfa_hackaton.Observability.Metrics.{
  Call, observe_stage_duration, set_stage_max, Client, Metrics, safe, longest, raise_max,
  elapsed_ms,
}
use alfa_hackaton.Observability.Metrics.Recorder.{record_stage}

-- a run of the recorder: what a timer measured of a stage, with its readings of the clock
pub record Timing : Type 0 where
  pub stage : Text
  pub started : ℕ
  pub stopped : ℕ

abbrev pub max : ℕ → ℕ → ℕ
max a b = if ltb a b then b else a

-- the longest of the stage, from a given one on
abbrev pub longest_of : Text → ℕ → List Timing → ℕ
longest_of stage n [] = n
longest_of stage n (t ∷ ts) =
    longest_of stage (if text_eq t.stage stage then max n (t.stopped - t.started) else n) ts

module _ (client : Client) (text_of : ℕ → Text) where
  unfoldable pub record_all : List Timing → Metrics client text_of → Metrics client text_of
  record_all [] m = m
  record_all (t ∷ ts) m =
      record_all ts (record_stage client text_of t.stage (elapsed_ms t.started t.stopped) m)

  longest-raise_max :
      (stage j : Text) (d : ℕ) (m : Metrics client text_of)
      → longest client text_of j (raise_max client text_of stage d m) ≡ (
          if text_eq stage j
          then max (longest client text_of j m) d
          else longest client text_of j m)
  unfolding raise_max safe longest
  longest-raise_max stage j d m = elim (Bool-cases (text_eq stage j)) [
    | inl own ↦
        rw ((text_eq_iff stage j).0 own) (
          ground
            (arith, text_eq_refl j, lookup-insert text_eq text_eq_iff j j d m.stage_max_values))
    | inr other ↦ ground (arith, lookup-insert text_eq text_eq_iff stage j d m.stage_max_values)
  ]

  ticks : (n : ℕ) → n * 1000 / 1000 ≡ n
  ticks n = omega arith

  -- what the recorder keeps of one report
  longest-record :
      (t : Timing) (j : Text) (m : Metrics client text_of)
      → longest client text_of j
          (record_stage client text_of t.stage (elapsed_ms t.started t.stopped) m)
        ≡ (if text_eq t.stage j
            then max (longest client text_of j m) (t.stopped - t.started)
            else longest client text_of j m)
  unfolding record_stage alfa_hackaton.Observability.Metrics.record_stage safe longest elapsed_ms
  longest-record t j m =
      rw (ticks (t.stopped - t.started)) (longest-raise_max t.stage j (t.stopped - t.started) _)

  -- what prometheus_client promises of the gauge of the stages, where its calls do not raise
  pub record StageGauge : Type 0 where
    pub shown : Text → client.Registry → ℕ
    pub set :
        (stage j : Text) (d : ℕ) (r : client.Registry)
        → shown j (client.perform (set_stage_max stage d) r).1
          ≡ (if text_eq stage j then d else shown j r)
    pub observe :
        (stage j : Text) (d : ℕ) (r : client.Registry)
        → shown j (client.perform (observe_stage_duration stage d) r).1 ≡ shown j r

  module _ (gauge : StageGauge) where
    shown-raise_max :
        (stage j : Text) (d : ℕ) (m : Metrics client text_of)
        → gauge.shown j m.registry ≡ longest client text_of j m
        → gauge.shown j (raise_max client text_of stage d m).registry
          ≡ longest client text_of j (raise_max client text_of stage d m)
    unfolding raise_max safe longest
    shown-raise_max stage j d m h = ground (
      arith,
      gauge.set stage j d m.registry,
      lookup-insert text_eq text_eq_iff stage j d m.stage_max_values,
      text_eq_iff stage j,
    )

    -- The gauge shows the longest duration of the stage, whether the report changes it or not.
    shown-record :
        (t : Timing) (j : Text) (m : Metrics client text_of)
        → gauge.shown j m.registry ≡ longest client text_of j m
        → gauge.shown j
            (record_stage client text_of t.stage (elapsed_ms t.started t.stopped) m).registry
          ≡ longest client text_of j
              (record_stage client text_of t.stage (elapsed_ms t.started t.stopped) m)
    unfolding record_stage alfa_hackaton.Observability.Metrics.record_stage safe longest
    shown-record t j m h = shown-raise_max t.stage j _ _ (gauge.observe t.stage j _ m.registry ∙ h)

    -- However many timings of whatever stages are reported, the dictionary and the gauge hold for
    -- every stage the longest that was measured of it, if they agreed before and the calls of
    -- prometheus_client do not raise.
    pub record_all-longest_of :
        (ts : List Timing) (m : Metrics client text_of)
        → ((j : Text) → gauge.shown j m.registry ≡ longest client text_of j m)
        → (j : Text)
        → (longest client text_of j (record_all ts m)
            ≡ longest_of j (longest client text_of j m) ts)
          × (gauge.shown j (record_all ts m).registry
              ≡ longest_of j (longest client text_of j m) ts)
    unfolding record_all
    record_all-longest_of [] m h j = (refl, h j)
    record_all-longest_of (t ∷ ts) m h j = rw (← longest-record t j m) (
        record_all-longest_of ts
          (record_stage client text_of t.stage (elapsed_ms t.started t.stopped) m)
          (λ i. shown-record t i m (h i)) j)
