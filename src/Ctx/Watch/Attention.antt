-- ===== src/Ctx/Watch/Attention.antt =====
-- When a watch asks for attention: `evaluate_attention`, `update_attention` and `remaining_ms` of
-- tools/src/pira_ctx/watch/mod.rs.
pub mod Why
use pira.Common.{
  ℕ, ◌+◌, ◌-◌, max, min, Bool, true, false, not, ◌&&◌, ◌||◌, Option, none, some, leb, list_eq,
  if◌then◌else◌, Text, codes,
}
use pira.Ctx.Watch.State.{u64_max, u128_max, saturating_add, is_some, unwrap_or, WatchState}

unfoldable pub remaining_ms : ℕ → ℕ → Option ℕ → ℕ → ℕ
remaining_ms now deadline review configured =
    let boundary = min deadline (unwrap_or review u128_max) in
    let remaining = min (boundary - now) u64_max in min configured (max remaining 1)

-- The reasons that `evaluate_attention` gives.
abbrev pub incomplete_inactivity : Text
incomplete_inactivity =
    codes
      "sample output is incomplete; inactivity or unchanged analyzer progress cannot be established"

abbrev pub unreliable_output : Text
unreliable_output = codes "rendered state is unreliable; unchanged output cannot be established"

abbrev pub incomplete_output : Text
incomplete_output = codes "sample output is incomplete"

abbrev pub no_raw_activity : Text
no_raw_activity = codes "no raw activity observed"

abbrev pub unchanged_output : Text
unchanged_output = codes "visible output unchanged"

abbrev pub unchanged_progress : Text
unchanged_progress = codes "analyzer progress unchanged"

-- `limit.is_some_and(|limit| now.saturating_sub(last.unwrap_or(created)) >= limit)`
abbrev pub is_past : ℕ → ℕ → Option ℕ → Option ℕ → Bool
is_past now created last none = false
is_past now created last (some limit) = leb limit (now - unwrap_or last created)

-- `Option<String> == Option<String>`
abbrev pub same_reason : Option Text → Option Text → Bool
same_reason none none = true
same_reason (some a) (some b) = list_eq a b
same_reason _ _ = false

-- What `or_else` computes where the analyzer gives no reason.
unfoldable pub observed_reason : WatchState → ℕ → Bool → Option Text
observed_reason w now observation_complete =
    if not observation_complete && (is_some w.inactive_after_ms || is_some w.no_progress_after_ms)
    then some incomplete_inactivity
    else if not w.rendered_reliable
    then some unreliable_output
    else if not observation_complete
    then some incomplete_output
    else if is_past now w.created_ms w.last_activity_ms w.inactive_after_ms
    then some no_raw_activity
    else if is_past now w.created_ms w.last_visible_change_ms w.unchanged_after_ms
    then some unchanged_output
    else if is_past now w.created_ms w.last_progress_ms w.no_progress_after_ms
    then some unchanged_progress
    else none

unfoldable pub update_attention : WatchState → Option Text → WatchState × Bool
unfolding list_eq
update_attention w reason =
    if same_reason w.attention_reason reason
    then (w, false)
    else if is_some reason
    then (
      record w {
        attention_reason = reason;
        attention_sequence = saturating_add u64_max w.attention_sequence 1;
      },
      true,
    )
    else (record w { attention_reason = reason }, false)

unfoldable pub evaluate_attention : WatchState → ℕ → Option Text → Bool → WatchState × Bool
unfolding observed_reason update_attention
evaluate_attention w now (some reason) observation_complete = update_attention w (some reason)
evaluate_attention w now none observation_complete =
    update_attention w (observed_reason w now observation_complete)
