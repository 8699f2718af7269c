-- ===== src/Relay/Pending.antt =====
-- pending.go. A channel has room for one message; a handler holds the channel that Register returned,
-- so removing the entry does not touch the channel itself.
use veyport.Base.{
  ◌≡◌, ◌≢◌, refl, Bool, true, false, not, Option, none, some, List, [], ◌∷◌, arith, if◌then◌else◌,
  is_some, find, select, update_where, ◌⊎◌, inl, inr, Bool-cases, Option-cases,
}
use veyport.Base.Text.{Text}
use veyport.Relay.Keys.{eq_text, eq_text_iff, make_key, make_key-injective, has_colon}

module _ {Message : Type 0} where
  -- The map `channels` holds a key and what its channel holds.
  abbrev pub for_key : Text → Text × Option Message → Bool
  for_key k (j, m) = eq_text j k

  unfoldable pub register :
      Text → Text → List (Text × Option Message) → List (Text × Option Message)
  register server_id request_id p =
      let key = make_key server_id request_id in (key, none) ∷ select (λ e. not (for_key key e)) p

  abbrev pub put : Message → Text × Option Message → Text × Option Message
  put msg (k, m) = (k, some msg)

  deliver_found :
      Text
      → Message
      → Option (Text × Option Message)
      → List (Text × Option Message)
      → Bool × List (Text × Option Message)
  deliver_found key msg none p = (false, p)
  deliver_found key msg (some (k, m)) p =
      if is_some m then (false, p) else (true, update_where (for_key key) (put msg) p)

  unfoldable pub deliver :
      Text → Text → Message → List (Text × Option Message) → Bool × List (Text × Option Message)
  unfolding deliver_found
  deliver server_id request_id msg p =
      let key = make_key server_id request_id in deliver_found key msg (find (for_key key) p) p

  unfoldable pub remove : Text → Text → List (Text × Option Message) → List (Text × Option Message)
  remove server_id request_id p = select (λ e. not (for_key (make_key server_id request_id) e)) p

  find-put :
      (k j : Text) (msg : Message) (p : List (Text × Option Message))
      → j ≢ k
      → find (for_key k) (update_where (for_key j) (put msg) p) ≡ find (for_key k) p
  unfolding find update_where
  find-put k j msg [] d = refl
  find-put k j msg ((i, m) ∷ p) d =
      ground (arith, find-put k j msg p d, eq_text_iff i k, eq_text_iff i j)

  deliver-states :
      (s r : Text) (msg : Message) (p : List (Text × Option Message))
      → ((deliver s r msg p).1 ≡ p)
        ⊎ ((deliver s r msg p).1 ≡ update_where (for_key (make_key s r)) (put msg) p)
  unfolding deliver
  deliver-states s r msg p = elim (Option-cases (find (for_key (make_key s r)) p)) [
    | inl missing ↦ inl (rw missing refl)
    | inr ((k, m), e) ↦ elim (Bool-cases (is_some m)) [
      | inl full ↦ inl (rw (e, full) refl)
      | inr empty ↦ inr (rw (e, empty) refl)
    ]
  ]

  -- A delivery for one server leaves what every request of another server waits for as it was, when
  -- no server id holds a colon.
  pub deliver_other :
      (s t r q : Text) (msg : Message) (p : List (Text × Option Message))
      → has_colon s ≡ false
      → has_colon t ≡ false
      → s ≢ t
      → find (for_key (make_key t q)) (deliver s r msg p).1 ≡ find (for_key (make_key t q)) p
  deliver_other s t r q msg p h k d = elim (deliver-states s r msg p) [
    | inl same ↦ rw same refl
    | inr e ↦ rw e (
        find-put (make_key t q) (make_key s r) msg p
          (λ same. d (make_key-injective s t r q h k same).0))
  ]
