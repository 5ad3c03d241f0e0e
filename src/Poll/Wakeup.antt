-- ===== src/Poll/Wakeup.antt =====
-- No wake-up is lost in morelib/poll.c, whatever the order of registrations and notifications.
use morelibc.Base.{
  ℕ, ◌<◌, ◌≡◌, ◌≢◌, ◌⊎◌, inl, inr, refl, ap, ◌∙◌, Bool-cases, List, [], ◌∷◌, map, ◌==◌, ==_iff,
  bit_and, bit_or, not_u32, u32_mod, bit_or-lt, bit_and-zero, All, All-map, arith,
}
use morelibc.Poll.{
  Waiter, PollFile, pollcom, poll_file_init, poll_waiter_init, notify_if, notify_one,
  poll_waiter_add, remove_all, poll_waiter_remove, poll_waiter_modify, poll_file_notify,
}
use morelibc.Poll.Bits.{disjoint-update, update-lt}

-- A waiter has missed nothing: either none of its events is set, or it was called.
pub record Heard (events : ℕ) (desc : Waiter) : Type 0 where
  pub width : desc.events < u32_mod
  pub heard : (bit_and desc.events events ≡ 0) ⊎ (0 < desc.calls)

pub record IsAttentive (file : PollFile) : Type 0 where
  pub width : file.events < u32_mod
  pub waiters : All (Heard file.events) file.waiters

-- The files that calls lead to.
pub data Reach : PollFile → Type 0 where
  start : (events : ℕ) → events < u32_mod → Reach (poll_file_init events)
  add :
      {file : PollFile} (id events : ℕ)
      → events < u32_mod
      → Reach file
      → Reach (poll_waiter_add (poll_waiter_init id events) file)
  remove : {file : PollFile} (id : ℕ) → Reach file → Reach (poll_waiter_remove id file)
  modify : {file : PollFile} (id : ℕ) → Reach file → Reach (poll_waiter_modify id file)
  notify :
      {file : PollFile} (clear set : ℕ)
      → clear < u32_mod
      → set < u32_mod
      → Reach file
      → Reach (poll_file_notify clear set file)

notify_if-events : (events : ℕ) (desc : Waiter) → (notify_if events desc).events ≡ desc.events
unfolding notify_if
notify_if-events events desc = elim (Bool-cases (bit_and desc.events events == 0)) [
  | inl e ↦ rw e refl
  | inr e ↦ rw e refl
]

-- After the test and the call, a waiter has heard of the events, and it has not forgotten a call.
notify_if-hears :
    (events : ℕ) (desc : Waiter)
    → (bit_and desc.events events ≡ 0) × (notify_if events desc ≡ desc)
      ⊎ (0 < (notify_if events desc).calls)
unfolding notify_if
notify_if-hears events desc = elim (Bool-cases (bit_and desc.events events == 0)) [
  | inl e ↦ inl ((==_iff _ _).0 e, rw e refl)
  | inr e ↦ inr (rw e (omega arith))
]

notify_if-Heard :
    (events : ℕ) (desc : Waiter) → desc.events < u32_mod → Heard events (notify_if events desc)
notify_if-Heard events desc h = record {
  width = rw (notify_if-events events desc) h;
  heard = elim (notify_if-hears events desc) [
    | inl (none_set, same) ↦ inl (rw same none_set)
    | inr called ↦ inr called
  ];
}

notify_one-Heard :
    (id events : ℕ) (desc : Waiter) → Heard events desc → Heard events (notify_one id events desc)
unfolding notify_one
notify_one-Heard id events desc v = elim (Bool-cases (desc.id == id)) [
  | inl e ↦ rw e (notify_if-Heard events desc v.width)
  | inr e ↦ rw e v
]

kept_calls : (events : ℕ) (desc : Waiter) → 0 < desc.calls → 0 < (notify_if events desc).calls
kept_calls events desc h = elim (notify_if-hears events desc) [
  | inl (none_set, same) ↦ rw same h
  | inr called ↦ called
]

module _ (e c s : ℕ) (he : e < u32_mod) (hc : c < u32_mod) where
  -- No new event: the events only go down.
  update-Heard :
      (desc : Waiter)
      → bit_and desc.events (bit_and (not_u32 e) s) ≡ 0
      → Heard e desc
      → Heard (bit_or (bit_and e (not_u32 c)) s) desc
  update-Heard desc q v = record {
    width = v.width;
    heard = elim v.heard [
      | inl p ↦ inl (disjoint-update desc.events e c s v.width he hc p q)
      | inr called ↦ inr called
    ];
  }

  notified-Heard :
      (desc : Waiter)
      → Heard e desc
      → Heard (bit_or (bit_and e (not_u32 c)) s) (notify_if (bit_and (not_u32 e) s) desc)
  notified-Heard desc v = elim (notify_if-hears (bit_and (not_u32 e) s) desc) [
    | inl (none_new, same) ↦ rw same (update-Heard desc none_new v)
    | inr called ↦ record {
      width = rw (notify_if-events (bit_and (not_u32 e) s) desc) v.width;
      heard = inr called;
    }
  ]

All-map_to {ℓ κ} :
    {A : Type ℓ} (P Q : A → Type κ) (f : A → A) (xs : List A)
    → ((x : A) → P x → Q (f x))
    → All P xs
    → All Q (map f xs)
All-map_to P Q f [] h v = tt
All-map_to P Q f (x ∷ xs) h v = (h x v.0, All-map_to P Q f xs h v.1)

remove_all-All {κ} :
    (P : Waiter → Type κ) (id : ℕ) (descs : List Waiter) → All P descs → All P (remove_all id descs)
unfolding remove_all
remove_all-All P id [] v = tt
remove_all-All P id (desc ∷ descs) v = elim (Bool-cases (desc.id == id)) [
  | inl e ↦ rw e (remove_all-All P id descs v.1)
  | inr e ↦ rw e (v.0, remove_all-All P id descs v.1)
]

poll_waiter_add-IsAttentive :
    (id events : ℕ) {file : PollFile}
    → events < u32_mod
    → IsAttentive file
    → IsAttentive (poll_waiter_add (poll_waiter_init id events) file)
unfolding poll_waiter_add poll_waiter_init
poll_waiter_add-IsAttentive id events {file} h v = record {
  width = v.width;
  waiters =
      (notify_if-Heard file.events _ (bit_or-lt 32 events pollcom h (omega arith)), v.waiters);
}

poll_waiter_remove-IsAttentive :
    (id : ℕ) {file : PollFile} → IsAttentive file → IsAttentive (poll_waiter_remove id file)
unfolding poll_waiter_remove
poll_waiter_remove-IsAttentive id {file} v = record {
  width = v.width;
  waiters = remove_all-All (Heard file.events) id file.waiters v.waiters;
}

poll_waiter_modify-IsAttentive :
    (id : ℕ) {file : PollFile} → IsAttentive file → IsAttentive (poll_waiter_modify id file)
unfolding poll_waiter_modify
poll_waiter_modify-IsAttentive id {file} v = record {
  width = v.width;
  waiters =
      All-map_to (Heard file.events) (Heard file.events) (notify_one id file.events) file.waiters
        (notify_one-Heard id file.events) v.waiters;
}

poll_file_notify-IsAttentive :
    (c s : ℕ) {file : PollFile}
    → c < u32_mod
    → s < u32_mod
    → IsAttentive file
    → IsAttentive (poll_file_notify c s file)
unfolding poll_file_notify
poll_file_notify-IsAttentive c s {file} hc hs v = record {
  width = update-lt file.events c s v.width hs;
  waiters = elim (Bool-cases (bit_and (not_u32 file.events) s == 0)) [
    | inl nothing ↦ rw nothing (
        All-map (Heard file.events) (Heard (bit_or (bit_and file.events (not_u32 c)) s))
          file.waiters
          (λ desc.
            update-Heard file.events c s v.width hc desc
              (ap (bit_and desc.events) ((==_iff _ _).0 nothing) ∙ bit_and-zero desc.events))
          v.waiters)
    | inr something ↦ rw something (
        All-map_to (Heard file.events) (Heard (bit_or (bit_and file.events (not_u32 c)) s))
          (notify_if (bit_and (not_u32 file.events) s)) file.waiters
          (notified-Heard file.events c s v.width hc) v.waiters)
  ];
}

pub Reach-IsAttentive : {file : PollFile} → Reach file → IsAttentive file
unfolding poll_file_init
Reach-IsAttentive (start events h) = record { width = h; waiters = tt }
Reach-IsAttentive (add id events h r) =
    poll_waiter_add-IsAttentive id events h (Reach-IsAttentive r)
Reach-IsAttentive (remove id r) = poll_waiter_remove-IsAttentive id (Reach-IsAttentive r)
Reach-IsAttentive (modify id r) = poll_waiter_modify-IsAttentive id (Reach-IsAttentive r)
Reach-IsAttentive (notify c s hc hs r) =
    poll_file_notify-IsAttentive c s hc hs (Reach-IsAttentive r)

-- No wake-up is lost: after any sequence of registrations, removals and notifications, each waiter that
-- is registered, and waits for an event that is set, has been called since it was initialised.
pub no_lost_wakeup :
    {file : PollFile}
    → Reach file
    → All (λ desc. bit_and desc.events file.events ≢ 0 → 0 < desc.calls) file.waiters
no_lost_wakeup {file} r =
    All-map (Heard file.events) (λ desc. bit_and desc.events file.events ≢ 0 → 0 < desc.calls)
      file.waiters
      (λ desc v set. elim v.heard [ inl unset ↦ absurd (set unset) | inr called ↦ called ])
      (Reach-IsAttentive r).waiters
