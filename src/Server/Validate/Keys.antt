-- ===== src/Server/Validate/Keys.antt =====
-- Keys that join a provider, a zero byte and a session are as good as the pair.
use Prim.Native.String.{len, slice}
use Prim.Native.String
use text.Mathlib.TextLemmas.{append_cancel_left, append_assoc}
use text.Mathlib.TextPositions.{slice-append_left}
use codex_claude_monitor.Prelude.{String, ◌≡◌, refl, inl, inr, arith, sym, ◌∙◌, ap, eq_iff}
use codex_claude_monitor.Model.{ActiveTask}
use codex_claude_monitor.Server.Validate.{task_key}
use codex_claude_monitor.Server.Validate.Spec.{IsProvider, SameSession}

-- Beginnings of equal length are equal.
heads : (a b s t : String) → String.◌++◌ a s ≡ String.◌++◌ b t → len a ≡ len b → a ≡ b
heads a b s t e l =
    sym (slice-append_left a s)
    ∙ ap (λ u. slice u 0 (len a)) e
    ∙ ap (λ k. slice (String.◌++◌ b t) 0 k) l
    ∙ slice-append_left b t

codex_ne_claude : (s t : String) → ¬ (String.◌++◌ "codex" s ≡ String.◌++◌ "claude" t)
codex_ne_claude s t e =
    let same : ◌≡◌ {A = String} "codex" "claud" =
      heads "codex" "claud" s (String.◌++◌ "e" t) (e ∙ append_assoc "claud" "e" t) refl in
    ground (arith, eq_iff "codex" "claud")

rests :
    (p s t : String)
    → String.◌++◌ p (String.◌++◌ "\0" s) ≡ String.◌++◌ p (String.◌++◌ "\0" t)
    → s ≡ t
rests p s t e = append_cancel_left "\0" s t (append_cancel_left p _ _ e)

keys_inj :
    (p q s t : String)
    → IsProvider p
    → IsProvider q
    → String.◌++◌ p (String.◌++◌ "\0" s) ≡ String.◌++◌ q (String.◌++◌ "\0" t)
    → (p ≡ q) × (s ≡ t)
keys_inj p q s t (inl a) (inl b) e =
    let same : p ≡ q = a ∙ sym b in
    (same, rests p s t (e ∙ ap (λ r. String.◌++◌ r (String.◌++◌ "\0" t)) (sym same)))
keys_inj p q s t (inr a) (inr b) e =
    let same : p ≡ q = a ∙ sym b in
    (same, rests p s t (e ∙ ap (λ r. String.◌++◌ r (String.◌++◌ "\0" t)) (sym same)))
keys_inj p q s t (inl a) (inr b) e = absurd (
    codex_ne_claude _ _ (
      ap (λ r. String.◌++◌ r (String.◌++◌ "\0" s)) (sym a)
      ∙ e
      ∙ ap (λ r. String.◌++◌ r (String.◌++◌ "\0" t)) b))
keys_inj p q s t (inr a) (inl b) e = absurd (
    codex_ne_claude _ _ (
      ap (λ r. String.◌++◌ r (String.◌++◌ "\0" t)) (sym b)
      ∙ sym e
      ∙ ap (λ r. String.◌++◌ r (String.◌++◌ "\0" s)) a))

-- Two tasks of known providers have one key exactly if they are one session of one provider.
pub task_key_inj :
    (t u : ActiveTask)
    → IsProvider t.provider
    → IsProvider u.provider
    → task_key t ≡ task_key u
    → SameSession t u
task_key_inj t u = keys_inj t.provider u.provider t.session_id u.session_id

pub task_key_cong : (t u : ActiveTask) → SameSession t u → task_key t ≡ task_key u
task_key_cong t u (p, s) = cc
