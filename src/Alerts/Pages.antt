-- ===== src/Alerts/Pages.antt =====
-- What a page of alerts has, and what dismissal leaves.
use sia_optimization_proposa.Prelude.{
  ℕ, zero, suc, ◌≤◌, ◌<◌, ◌≡◌, refl, ◌⊎◌, inl, inr, ◌↔◌, ap, ◌∙◌, Bool, true, false, ◌||◌, none,
  some, List, [], ◌∷◌, ◌++◌, arith, if◌then◌else◌, ◌==◌, length, take, drop, length-take,
  length-drop, take-append-drop,
}
use sia_optimization_proposa.Prelude.Int.{pos}
use sia_optimization_proposa.Prelude.Maps.{Map, lookup, delete, lookup-delete}
use sia_optimization_proposa.Alerts.{
  Alert, AlertsResponse, page, get_alerts, filtered, totals_only, dismiss_alerts,
}

-- The alerts in front of the page, the page, and those behind it.
pub record IsPage (found : List Alert) (offset limit : ℕ) (resp : AlertsResponse) : Type 0 where
  pub behind : List Alert
  pub split : take offset found ++ (resp.alerts ++ behind) ≡ found
  pub within : 0 < limit → length resp.alerts ≤ limit
  pub more : (resp.has_more ≡ true) ↔ (0 < length behind)

append_nil : (xs : List Alert) → xs ++ [] ≡ xs
append_nil [] = refl
append_nil (x ∷ xs) = ap (◌∷◌ x) (append_nil xs)

take_all : (n : ℕ) (xs : List Alert) → length xs ≤ n → take n xs ≡ xs
take_all zero [] h = refl
take_all (suc n) [] h = refl
take_all zero (x ∷ xs) h = absurd (omega (arith, h))
take_all (suc n) (x ∷ xs) h = ap (◌∷◌ x) (take_all n xs (omega (arith, h)))

page_cases :
    (resp : AlertsResponse) (found : List Alert) (offset limit : ℕ)
    → (length found ≤ offset) × (page resp found (pos offset) (pos limit) ≡ some resp)
      ⊎ (offset < length found)
        × (0 < limit)
        × (limit < length (drop offset found))
        × (page resp found (pos offset) (pos limit)
            ≡ some (record resp { alerts = take limit (drop offset found); has_more = true }))
      ⊎ (offset < length found)
        × ((limit ≡ 0) ⊎ (length (drop offset found) ≤ limit))
        × (page resp found (pos offset) (pos limit)
            ≡ some (record resp { alerts = drop offset found }))
unfolding page
page_cases resp found offset limit = ground arith

module _ (resp : AlertsResponse) (empty : resp.alerts ≡ []) (last : resp.has_more ≡ false)
    (found : List Alert) (offset limit : ℕ) where
  past-IsPage : length found ≤ offset → IsPage found offset limit resp
  past-IsPage past = record {
    behind = [];
    split = rw empty (append_nil (take offset found) ∙ take_all offset found past);
    within = λ h. rw empty (omega arith);
    more = ground arith;
  }

  cut-IsPage :
      limit < length (drop offset found)
      → IsPage found offset limit
          (record resp { alerts = take limit (drop offset found); has_more = true })
  cut-IsPage short = record {
    behind = drop limit (drop offset found);
    split =
        ap (λ (xs : List Alert). take offset found ++ xs)
          (take-append-drop limit (drop offset found))
        ∙ take-append-drop offset found;
    within = λ h. omega (arith, length-take limit (drop offset found));
    more = ((λ e. omega (arith, length-drop limit (drop offset found), short)), (λ h. refl));
  }

  rest-IsPage :
      (limit ≡ 0) ⊎ (length (drop offset found) ≤ limit)
      → IsPage found offset limit (record resp { alerts = drop offset found })
  rest-IsPage enough = record {
    behind = [];
    split =
        ap (λ (xs : List Alert). take offset found ++ xs) (append_nil (drop offset found))
        ∙ take-append-drop offset found;
    within = λ h. ground (arith, enough);
    more = ground arith;
  }

-- With an offset and a limit that are not negative, `Alerts` answers. The list that its filter and
-- its sort give is what is in front of the offset, then the page, then what is behind the page: the
-- page has at most `limit` alerts where the limit is not 0, and `HasMore` is true exactly when some
-- are behind it.
pub get_alerts-IsPage :
    (alerts : Map Alert) (severity offset limit : ℕ)
    → (resp : AlertsResponse) × (get_alerts alerts
          (record { offset = pos offset; limit = pos limit; severity = severity })
        ≡ some resp)
      × IsPage (filtered alerts severity) offset limit resp
unfolding get_alerts
get_alerts-IsPage alerts severity offset limit =
    let base = totals_only alerts in
    let found = filtered alerts severity in
    elim (page_cases base found offset limit) [
      | inl (past, e) ↦ (base, e, past-IsPage base refl refl found offset limit past)
      | inr (inl (a, b, c, e)) ↦ (
        record base { alerts = take limit (drop offset found); has_more = true },
        e,
        cut-IsPage base refl refl found offset limit c,
      )
      | inr (inr (a, b, e)) ↦ (
        record base { alerts = drop offset found },
        e,
        rest-IsPage base refl refl found offset limit b,
      )
    ]

abbrev pub dismissed : ℕ → List ℕ → Bool
dismissed id [] = false
dismissed id (k ∷ ks) = k == id || dismissed id ks

-- `DismissAlerts` removes the alerts with the given ids and keeps every other one as it was.
pub lookup-dismiss_alerts :
    (alerts : Map Alert) (ids : List ℕ) (id : ℕ)
    → lookup id (dismiss_alerts alerts ids) ≡ (if dismissed id ids then none else lookup id alerts)
unfolding dismiss_alerts
lookup-dismiss_alerts alerts [] id = refl
lookup-dismiss_alerts alerts (k ∷ ks) id =
    ground (arith, lookup-dismiss_alerts (delete k alerts) ks id, lookup-delete k id alerts)
