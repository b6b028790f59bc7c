-- ===== src/Library/Handover.antt =====
-- `ums_completion_list_add` of src/lib/ums.c: a worker is put into the array of a list and handed
-- to the kernel's list.
use aosv_project.Base.{
  ℕ, ◌≡◌, ◌<◌, refl, sym, ap, ◌∙◌, ◌⊎◌, inl, inr, if◌then◌else◌, Bool-cases, minus_one,
}
use aosv_project.Interface.{max_wt}
use aosv_project.Kernel.Outcome.{Outcome, ok, fault, blocked}
use aosv_project.Kernel.Valid.{Ends}
use aosv_project.Library.{
  CompletionList, Ioctl, Reply, is_negative, add_to_list, hand_on, completion_list_add,
  ums_completion_list_add,
}
use aosv_project.Library.Array.{Fits, Appended, completion_list_add-appends}

Ends-hand_on :
    {S T A B : Type 0} {P : A → S → Type 0} (Q : B → T → Type 0) (r : Outcome S A)
    (k : A → S → Outcome T B)
    → Ends P r
    → ((a : A) (s : S) → P a s → Ends Q (k a s))
    → Ends Q (hand_on r k)
Ends-hand_on Q (ok a s) k p next = next a s p
Ends-hand_on Q fault k p next = absurd p
Ends-hand_on Q blocked k p next = absurd p

module _ {D : Type 0} (ioctl : Ioctl D) where
  -- The result of the library's call for a result of `ioctl`.
  abbrev pub status : ℕ → ℕ
  status r = if is_negative r then minus_one else 0

  -- The device's answer to one more worker of a list.
  abbrev pub answer : CompletionList → (tid : ℕ) → D → ℕ × Reply × D
  answer list tid d = ioctl (add_to_list list.clc tid) d

  request :
      (list after : CompletionList) (wt tid : ℕ) (d : D)
      → after.clc ≡ list.clc
      → (list.last_index ≡ max_wt) × (after ≡ list)
        ⊎ (list.last_index < max_wt) × Appended list wt after
      → Ends
          (λ r (next, e).
            (r ≡ status ((answer list tid d).0))
            × (e ≡ (answer list tid d).2)
            × ((list.last_index ≡ max_wt) × (next ≡ list)
                ⊎ (list.last_index < max_wt) × Appended list wt next))
          (let (r, reply, e) = answer after tid d in
            if is_negative r then ok minus_one (after, e) else ok 0 (after, e))
  request list after wt tid d same cases =
      let e : answer after tid d ≡ answer list tid d = ap (λ c. ioctl (add_to_list c tid) d) same in
      let result : (if is_negative ((answer after tid d).0) then minus_one else 0)
          ≡ status ((answer list tid d).0) =
        ap (λ (x : ℕ × Reply × D). status x.0) e in
      let device : (answer after tid d).2 ≡ (answer list tid d).2 =
        ap (λ (x : ℕ × Reply × D). x.2) e in
      elim (Bool-cases (is_negative ((answer after tid d).0))) [
        | inl failed ↦
            let r = ap (λ b. if b then minus_one else 0) (sym failed) ∙ result in
            rw failed (r, device, cases)
        | inr done ↦
            let r = ap (λ b. if b then minus_one else 0) (sym done) ∙ result in
            rw done (r, device, cases)
      ]

  -- Adding a worker to a list whose array has its size makes one request to the device, for the
  -- list's id and the worker's tid, and returns 0, or -1 where the request failed. Where there is
  -- room the array then holds the worker behind all others; on a full list the array is
  -- unchanged, though the request has been made and the result may be 0.
  pub ums_completion_list_add-requests :
      (list : CompletionList) (wt tid : ℕ) (d : D)
      → Fits list
      → Ends
          (λ r (after, e).
            (r ≡ status ((answer list tid d).0))
            × (e ≡ (answer list tid d).2)
            × ((list.last_index ≡ max_wt) × (after ≡ list)
                ⊎ (list.last_index < max_wt) × Appended list wt after))
          (ums_completion_list_add ioctl wt tid list d)
  unfolding ums_completion_list_add
  ums_completion_list_add-requests list wt tid d fits =
      elim (completion_list_add-appends list wt fits) [
        | inl (full, e) ↦ rw e (request list list wt tid d refl (inl (full, refl)))
        | inr (room, ends) ↦
            Ends-hand_on _ (completion_list_add wt list) _ ends
              λ r after (_, a). request list after wt tid d a.clc (inr (room, a))
      ]
