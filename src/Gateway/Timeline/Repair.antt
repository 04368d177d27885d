-- ===== src/Gateway/Timeline/Repair.antt =====
-- Which interruption a prompt is about.
use openlive.Common.{ℕ, ◌≡◌, refl, Option, none, some, List, [], ◌∷◌}
use openlive.Common.Text.{Text}
use openlive.Gateway.Timeline.{RepairContext, new_repair, record_interruption, take_prompt, prompt}

pub data Call : Type 0 where
  interrupts : (generation_id media_time_us : ℕ) → Call
  takes : Call

-- The last interruption, unless a prompt was taken since.
abbrev pub pending : List Call → Option (ℕ × ℕ)
pending [] = none
pending (interrupts g t ∷ h) = some (g, t)
pending (takes ∷ h) = none

module _ (uuid_text : ℕ → Text) where
  -- The context after a history of calls, newest first.
  unfoldable pub after : List Call → RepairContext
  after [] = new_repair
  after (interrupts g t ∷ h) = record_interruption (after h) g t
  after (takes ∷ h) = (take_prompt uuid_text (after h)).0

  abbrev pub prompt_for : Option (ℕ × ℕ) → Text
  prompt_for none = []
  prompt_for (some (g, t)) = prompt uuid_text (some g) t

  -- After any calls on a new context, a prompt tells the user's last interruption, with its media
  -- time, if there was one since a prompt was last taken; otherwise it is empty.
  pub take_prompt_once :
      (h : List Call) → (take_prompt uuid_text (after h)).1 ≡ prompt_for (pending h)
  unfolding after take_prompt record_interruption
  take_prompt_once [] = refl
  take_prompt_once (interrupts g t ∷ h) = refl
  take_prompt_once (takes ∷ h) = refl
