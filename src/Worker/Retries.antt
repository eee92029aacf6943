-- ===== src/Worker/Retries.antt =====
-- The failure table and the backoff, as a policy decides with them.
use limnopulse.Prelude.{ℕ, ◌≤◌, max, ◌≡◌, refl, ◌⊎◌, ◌↔◌, some, arith}
use limnopulse.Worker.{
  Category, failure_table, ingress_backoff_seconds, backoff_window, RetryPolicy, ProcessAction,
  Decision, decision, policy_backoff, max_visibility_seconds,
}

-- Where the jitter stays within its window, the backoff is at least a second, at most twelve hours,
-- and no more than the window where the window is not empty.
pub backoff_bounds :
    (n base cap : ℕ) (jitter : ℕ → ℕ)
    → ((w : ℕ) → jitter w ≤ w)
    → (1 ≤ ingress_backoff_seconds n base cap jitter)
      × (ingress_backoff_seconds n base cap jitter ≤ max_visibility_seconds)
      × (ingress_backoff_seconds n base cap jitter ≤ max (backoff_window n base cap) 1)
unfolding ingress_backoff_seconds
backoff_bounds n base cap jitter ok = ground (arith, ok (backoff_window n base cap))

-- A message is deleted exactly when it was processed or fenced on a verified account.
pub decision-delete_iff :
    (p : RetryPolicy) (c : Category) (n : ℕ)
    → ((decision p c n).action ≡ ProcessAction.delete)
      ↔ ((c ≡ Category.processed) ⊎ (c ≡ Category.fenced))
unfolding decision failure_table
decision-delete_iff p c n = ground arith

-- The seconds that a decision leaves the message hidden for.
abbrev pub Hidden : Decision → ℕ → Type 0
Hidden d limit = (s : ℕ) × ((d.seconds ≡ some s) × ((1 ≤ s) × (s ≤ limit)))

-- A message that is not deleted is hidden for a second at least and for no longer than the queue
-- allows, where the policy's jitter stays within its window and its permanent visibility in these
-- bounds.
pub decision-hides :
    (p : RetryPolicy) (c : Category) (n : ℕ)
    → ((w : ℕ) → p.jitter w ≤ w)
    → 1 ≤ p.permanent_visibility
    → p.permanent_visibility ≤ max_visibility_seconds
    → (decision p c n).action ≡ ProcessAction.visibility
    → Hidden (decision p c n) max_visibility_seconds
unfolding decision failure_table policy_backoff
decision-hides p Category.fenced n ok low high h = ground arith
decision-hides p Category.processed n ok low high h = ground arith
decision-hides p Category.deferred n ok low high h =
    let b = backoff_bounds n p.base p.cap p.jitter ok in (_, (refl, (b.0, b.1)))
decision-hides p Category.unexpected n ok low high h =
    let b = backoff_bounds n p.base p.cap p.jitter ok in (_, (refl, (b.0, b.1)))
decision-hides p Category.store_unavailable n ok low high h =
    let b = backoff_bounds n p.base p.cap p.jitter ok in (_, (refl, (b.0, b.1)))
decision-hides p Category.write_retryable n ok low high h =
    let b = backoff_bounds n p.base p.cap p.jitter ok in (_, (refl, (b.0, b.1)))
decision-hides p _ n ok low high h = (_, (refl, (low, high)))
