-- ===== src/Analytics/Tangle/ProtocolParams.antt =====
-- `ProtocolParamsAnalytics`: src/analytics/tangle/protocol_params.rs. Equality of protocol
-- parameters is a parameter.
use inx_chronicle.Common.{
  Bool, true, false, Option, none, some, List, [], ◌∷◌, if◌then◌else◌, ◌≡◌, refl, ap, Bool-cases,
  inl, inr,
}
use inx_chronicle.Model.Protocol.{ProtocolParameters}
use inx_chronicle.Analytics.Milestone.{AnalyticsContext}

pub record ProtocolParamsAnalytics : Type 0 where
  pub params : Option ProtocolParameters

module _ (same_parameters : ProtocolParameters → ProtocolParameters → Bool) where
  -- `matches!(&self.params, Some(last_params) if last_params == ctx.protocol_params())`
  abbrev pub is_last : Option ProtocolParameters → ProtocolParameters → Bool
  is_last none params = false
  is_last (some last_params) params = same_parameters last_params params

  unfoldable pub take_measurement :
      ProtocolParamsAnalytics
      → AnalyticsContext
      → Option ProtocolParameters × ProtocolParamsAnalytics
  take_measurement s ctx =
      if is_last s.params ctx.protocol_params
      then (none, s)
      else (some ctx.protocol_params, record { params = some ctx.protocol_params })

  -- the measurements of several milestones
  abbrev pub take_all :
      ProtocolParamsAnalytics → List AnalyticsContext → List (Option ProtocolParameters)
  take_all s [] = []
  take_all s (ctx ∷ ctxs) = let (m, s') = take_measurement s ctx in m ∷ take_all s' ctxs

  -- the parameters that were measured last, after those from before
  abbrev last_measured :
      Option ProtocolParameters → List (Option ProtocolParameters) → Option ProtocolParameters
  last_measured last [] = last
  last_measured last (none ∷ ms) = last_measured last ms
  last_measured last (some p ∷ ms) = last_measured (some p) ms

  -- the parameters in force are the ones that were measured last
  abbrev IsCurrent :
      Option ProtocolParameters → List AnalyticsContext → List (Option ProtocolParameters) → Type 0
  IsCurrent last [] [] = Unit
  IsCurrent last (ctx ∷ ctxs) (m ∷ ms) =
      (last_measured last (m ∷ []) ≡ some ctx.protocol_params)
      × IsCurrent (last_measured last (m ∷ [])) ctxs ms
  IsCurrent last [] (m ∷ ms) = ⊥
  IsCurrent last (ctx ∷ ctxs) [] = ⊥

  last_kept :
      (last : Option ProtocolParameters) (ctx : AnalyticsContext)
      → ((p q : ProtocolParameters) → same_parameters p q ≡ true → p ≡ q)
      → is_last last ctx.protocol_params ≡ true
      → last ≡ some ctx.protocol_params
  last_kept none ctx equal h = absurd (cc)
  last_kept (some p) ctx equal h = ap some (equal p ctx.protocol_params h)

  -- When equal parameters are the same, then after every milestone the parameters in force are the
  -- ones that were measured last, also where a milestone measures none.
  pub take_all-IsCurrent :
      (s : ProtocolParamsAnalytics) (ctxs : List AnalyticsContext)
      → ((p q : ProtocolParameters) → same_parameters p q ≡ true → p ≡ q)
      → IsCurrent s.params ctxs (take_all s ctxs)
  unfolding take_measurement
  take_all-IsCurrent s [] equal = tt
  take_all-IsCurrent s (ctx ∷ ctxs) equal =
      elim (Bool-cases (is_last s.params ctx.protocol_params)) [
        | inl same ↦ rw same (last_kept s.params ctx equal same, take_all-IsCurrent s ctxs equal)
        | inr other ↦
            rw other
              (refl, take_all-IsCurrent (record { params = some ctx.protocol_params }) ctxs equal)
      ]
