-- ===== src/Mqueue/Laws.antt =====
-- What the jobs do: the job that closes an order, and the retries of a message.
use flash_sale_system.Common.{
  ◌≡◌, ◌≢◌, refl, ◌⊎◌, inl, inr, ◌+◌, ◌≤◌, ◌<◌, ℕ, suc, zero, Bool, true, false, some, String, ok,
  err, panic, Error, not_found, arith, Bool-cases, ltb, ◌==◌, ==_iff,
}
use flash_sale_system.Store.{Conn}
use flash_sale_system.Reply.{remote}
use flash_sale_system.Order.{HomestayOrder, Task, State, wait_pay, cancel}
use flash_sale_system.Order.Trade.{find_one_by_sn}
use flash_sale_system.Order.TradeLaws.{update_of_missing}
use flash_sale_system.Order.Query.{homestay_order_detail, to_pb}
use flash_sale_system.Mqueue.CloseOrder.{close_order, err_close_order}
use flash_sale_system.Mqueue.Notify.{send_loop, max_retry_num}

module _ {Db : Type 0} (conn : Conn Db HomestayOrder) (marshals : Task → Bool)
    (carry : Error → Error) where
  -- The job changes an order only while it waits for its payment: of any other order it changes
  -- nothing, and it succeeds.
  pub close_only_unpaid :
      (sn : String) (s : State Db) (o : HomestayOrder)
      → find_one_by_sn conn sn s.db ≡ ok o
      → o.trade_state ≢ wait_pay
      → close_order conn marshals carry (ok sn) s ≡ (ok tt, s)
  unfolding close_order homestay_order_detail remote to_pb
  close_only_unpaid sn s o found paid = ground arith

  -- For an order that does not exist the job fails and changes nothing: the detail call answers
  -- with an empty order, whose state reads as waiting for payment, and the update then fails.
  close_missing_fails :
      (sn : String) (s : State Db)
      → find_one_by_sn conn sn s.db ≡ err not_found
      → close_order conn marshals carry (ok sn) s ≡ (err err_close_order, s)
  unfolding close_order homestay_order_detail remote
  close_missing_fails sn s missing =
      ground (
        arith,
        update_of_missing conn marshals (record { sn = sn; trade_state = cancel }) s missing,
      )

  -- Where the read of the order fails, the job panics: its error text reads a field of a nil response.
  close_panics :
      (sn : String) (s : State Db) (e : Error)
      → find_one_by_sn conn sn s.db ≡ err e
      → e ≢ not_found
      → close_order conn marshals carry (ok sn) s ≡ (panic, s)
  unfolding close_order homestay_order_detail remote
  close_panics sn s e failed other_error = ground arith

  -- Where the read of its order fails, the job changes nothing: it fails if the order does not exist,
  -- and panics on every other error.
  pub close_unread :
      (sn : String) (s : State Db) (e : Error)
      → find_one_by_sn conn sn s.db ≡ err e
      → ((e ≡ not_found) × (close_order conn marshals carry (ok sn) s ≡ (err err_close_order, s)))
        ⊎ ((e ≢ not_found) × (close_order conn marshals carry (ok sn) s ≡ (panic, s)))
  close_unread sn s not_found failed = inl (refl, close_missing_fails sn s failed)
  close_unread sn s (Error.code_error code msg) failed =
      inr ((λ h. cc), close_panics sn s (Error.code_error code msg) failed (λ h. cc))
  close_unread sn s (Error.status code msg) failed =
      inr ((λ h. cc), close_panics sn s (Error.status code msg) failed (λ h. cc))
  close_unread sn s Error.no_rows_update failed =
      inr ((λ h. cc), close_panics sn s Error.no_rows_update failed (λ h. cc))
  close_unread sn s (Error.other text) failed =
      inr ((λ h. cc), close_panics sn s (Error.other text) failed (λ h. cc))

send_loop_ends :
    (fuel : ℕ) (sends : ℕ → Bool) (retry_num k : ℕ)
    → 7 ≤ fuel + retry_num
    → retry_num ≤ 6
    → (n : ℕ) × (send_loop fuel sends retry_num k ≡ some (suc n))
      × (k ≤ n)
      × (n + retry_num ≤ k + 6)
      × ((i : ℕ) → k ≤ i → i < n → sends i ≡ false)
      × ((sends n ≡ true) ⊎ (n + retry_num ≡ k + 6))
unfolding send_loop
send_loop_ends zero sends r k f c = absurd (omega arith)
send_loop_ends (suc fuel) sends r k f c = elim (Bool-cases (sends k)) [
  | inl sent ↦
      (k, rw sent refl, omega arith, omega arith, (λ i h j. absurd (omega arith)), inl sent)
  | inr lost ↦ elim (Bool-cases (ltb max_retry_num r)) [
    | inl last ↦ (
      k,
      rw (lost, last) refl,
      omega arith,
      omega arith,
      (λ i h j. absurd (omega arith)),
      inr (ground arith),
    )
    | inr more ↦
        let (n, e, lower, upper, failed, ended) =
          send_loop_ends fuel sends (suc r) (suc k) (omega arith) (ground arith) in
        (
          n,
          rw (lost, more) e,
          omega arith,
          omega arith,
          (λ i h j. elim (Bool-cases (i == k)) [
            | inl this ↦ rw ((==_iff i k).0 this) lost
            | inr later ↦ failed i (ground arith) j
          ]),
          elim ended [ inl sent ↦ inl sent | inr limit ↦ inr (omega arith) ],
        )
  ]
]

-- `SendWxMini` ends, after seven calls of `Send` at most: it stops at the first call that succeeds,
-- and gives up after the seventh, the first try and six retries.
pub send_wx_mini_ends :
    (sends : ℕ → Bool)
    → (n : ℕ) × (send_loop 7 sends 0 0 ≡ some (suc n))
      × (n ≤ 6)
      × ((i : ℕ) → i < n → sends i ≡ false)
      × ((sends n ≡ true) ⊎ (n ≡ 6))
send_wx_mini_ends sends =
    let (n, e, _, upper, failed, ended) = send_loop_ends 7 sends 0 0 (omega arith) (omega arith) in
    (
      n,
      e,
      omega arith,
      (λ i h. failed i (omega arith) h),
      elim ended [ inl sent ↦ inl sent | inr limit ↦ inr (omega arith) ],
    )
