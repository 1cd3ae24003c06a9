-- ===== src/Model/Errors.antt =====
-- What the services throw: NestJS's HTTP exceptions, and the errors of Prisma and of the cipher
-- that they let through. A reason stands for a message, with the values that the message shows.
use Prim.Native.Nat.{ℕ}
use Prim.Native.String.{String}
use lucky_draw.Model.Status.{OrderStatus, KujiStatus, ShipmentStatus, PaymentStatus, PickupStatus}

pub data Reason : Type 0 where
  positions_empty too_many_positions duplicate_positions seats_missing : Reason
  already_holding : ℕ → Reason
  seat_sold seat_taken seat_not_reserved : ℕ → Reason
  seat_of_other_kuji reservation_expired seat_already_ordered : Reason
  kuji_not_found tickets_exist last_prize_quantity tier_sum_mismatch seats_in_use : Reason
  kuji_not_on_sale : KujiStatus → Reason
  sale_window_closed out_of_stock per_user_limit_exceeded : Reason
  address_not_found address_required duplicate_in_flight idempotency_key_conflict : Reason
  ticket_count_required order_not_found state_changed_concurrently : Reason
  cannot_cancel order_not_drawable order_not_payable cannot_refund : OrderStatus → Reason
  order_not_waiting : OrderStatus → Reason
  sales_order_not_drawable order_has_no_tickets last_prize_unavailable : Reason
  all_tiers_sold_out cas_contention bank_transfer_order amount_mismatch : Reason
  payment_already_finalized no_payment already_refunded no_provider_tx_id : Reason
  shipment_in_progress : ShipmentStatus → Reason
  payment_not_found not_bank_transfer payment_amount_mismatch : Reason
  payment_not_confirmable : PaymentStatus → Reason
  shipment_not_found update_payload_required : Reason
  invalid_transition invalid_shipment_transition : ShipmentStatus → ShipmentStatus → Reason
  products_not_found shipping_address_required : Reason
  arrival_quantity_invalid product_not_found product_not_preorder : Reason
  not_pickup_order pickup_not_found : Reason
  pickup_in_order_status : OrderStatus → Reason
  pickup_in_status : PickupStatus → Reason
  product_not_on_sale product_not_started product_ended product_out_of_stock : String → Reason

pub data Error : Type 0 where
  bad_request conflict not_found internal service_unavailable : Reason → Error
  forbidden : Error
  -- Prisma's P2002, a unique constraint
  unique_violation : Error
  -- a cipher text or a plain text that `FieldCipherService.decrypt` refuses
  decrypt_failed : Error
  -- what the payment provider's client throws
  provider_failed : Error

-- A call that returns, or throws.
pub data Result {ℓ} (A : Type ℓ) : Type ℓ where
  ok : A → Result A
  err : Error → Result A
