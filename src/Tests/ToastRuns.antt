-- ===== src/Tests/ToastRuns.antt =====
-- A saved parcel is announced, the announcement is dismissed, and another follows.
use development_plan.Base.{
  ℕ, String, ◌≡◌, ◌≢◌, refl, true, none, some, [], ◌∷◌, find, at, string_eq, arith,
}
use text.Mathlib.TextEquality.{eq_iff}
use development_plan.Toast.{
  Toast, Store, dispatch, dismiss_toast, expire, toast, render, subscribe, reducer,
}
use development_plan.Toast.Waiting.{IsOrderly}
use development_plan.Toast.Laws.{
  toast_key, initial, start, toasted, dismissed, rendered, subscribed, Reached-IsOrderly,
  expire-dismiss,
}

abbrev digits : ℕ → String
digits n = "7"

abbrev saved : Toast String
saved = record { title = some "Saved"; description = none; action = none; variant = none }

abbrev announced : Store String
announced = record {
  toasts =
      record {
        id = "7";
        title = some "Saved";
        description = none;
        action = none;
        variant = none;
        is_open = some true;
      }
      ∷ [];
  timeouts = [];
  count = 1;
  mounting = [];
  shown = [];
}

toast_run : toast digits saved initial ≡ announced
unfolding toast dispatch reducer
toast_run = refl

Reached-IsOrderly_example :
    IsOrderly
      (dispatch (dismiss_toast (some "7")) (toast digits saved (subscribe (render initial))))
Reached-IsOrderly_example =
    Reached-IsOrderly digits (dismissed (some "7") (toasted saved (subscribed (rendered start))))

-- A toast between a component's first render and its effect is not what the component shows.
missed_run : (subscribe (toast digits saved (render initial))).shown ≡ ([] ∷ [])
unfolding toast dispatch reducer render subscribe
missed_run = refl

seven_given : ◌≢◌ {A = String} "7" ""
seven_given = ground (arith, eq_iff "7" "")

expire-dismiss_example :
    find (at toast_key "7") (expire "7" (dispatch (dismiss_toast (some "7")) announced)).toasts
    ≡ none
expire-dismiss_example = expire-dismiss "7" announced seven_given
