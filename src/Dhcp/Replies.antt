-- ===== src/Dhcp/Replies.antt =====
-- What the DHCP server of src/dhcp.rs answers.
use mathlib.Core.Path.{subst}
use mathlib.Core.Option.{some-injective}
use omniportal.Base.{
  ℕ, zero, suc, ◌≤◌, ◌≡◌, refl, sym, ap, ◌∙◌, ◌⊎◌, List, [], ◌∷◌, Bool, true, false, Option, none,
  some, length, take, drop, slice, ltb, ◌==◌, if◌then◌else◌, arith, length-drop,
}
use omniportal.Dhcp.{
  DhcpRequest, Found, nothing_found, note_option, parse_options, parse, refused, request_of,
  request_if_found, lease_of, reply_type_of, reply_to, respond,
}
use omniportal.Dhcp.Packets.{
  length-slice, IsRequestOf, parse-IsRequestOf, IsClientAddress, IsLease, lease_of-IsLease,
  reply_type_of-cases,
}
use omniportal.Dhcp.Sent.{reply_bytes, Sent, request-Sent}

-- The reply to a packet: its sender's numbers, an address that may be given to a client, and the
-- type of the reply, which the server's own parser finds.
pub record Answers (packet reply : List ℕ) : Type 0 where
  pub xid_eq : slice 4 4 reply ≡ slice 4 4 packet
  pub flags_eq : slice 10 2 reply ≡ slice 10 2 packet
  pub mac_eq : slice 28 6 reply ≡ slice 28 6 packet
  pub lease_ok : IsClientAddress (slice 16 4 reply)
  pub length_eq : length reply ≡ 286
  pub reply_type : ℕ
  pub type_ok : (reply_type ≡ 2) ⊎ (reply_type ≡ 5)
  pub type_found :
      parse_options (length reply) (drop 240 reply) nothing_found
      ≡ some (record { message_type = some reply_type; requested_ip = none })

packet-Sent :
    (packet : List ℕ) (request : DhcpRequest) (reply_type : ℕ)
    → IsRequestOf packet request
    → Sent request reply_type (lease_of request) (reply_bytes request reply_type (lease_of request))
unfolding IsLease
packet-Sent packet request reply_type p =
    let long = p.is_long in
    request-Sent request reply_type (lease_of request)
      (ap length p.xid_eq ∙ length-slice 4 4 packet (omega arith))
      (ap length p.flags_eq ∙ length-slice 10 2 packet (omega arith))
      (ap length p.mac_eq ∙ length-slice 28 6 packet (omega arith))
      (lease_of-IsLease request request.requested_ip p.ip_length).0

reply-Answers :
    (packet reply : List ℕ) (request : DhcpRequest) (reply_type : Option ℕ)
    → IsRequestOf packet request
    → reply_type_of request.message_type ≡ reply_type
    → reply_to request reply_type ≡ some reply
    → Answers packet reply
unfolding IsLease
reply-Answers packet reply request none p t e = absurd (ground arith)
reply-Answers packet reply request (some reply_type) p t e =
    let lease = lease_of-IsLease request request.requested_ip p.ip_length in
    let sent = packet-Sent packet request reply_type p in
    subst (Answers packet) (some-injective _ _ e) (record {
      xid_eq = sent.xid_eq ∙ p.xid_eq;
      flags_eq = sent.flags_eq ∙ p.flags_eq;
      mac_eq = sent.mac_eq ∙ p.mac_eq;
      lease_ok = subst IsClientAddress (sym sent.lease_eq) lease.1;
      length_eq = sent.length_eq;
      reply_type = reply_type;
      type_ok = reply_type_of-cases request.message_type reply_type t;
      type_found = sent.type_found;
    })

-- What is sent answers the packet: it carries the transaction number, the flags and the MAC of the
-- packet and an address that may be given to a client, is 286 bytes long, and the server's own
-- parser finds in its options the type OFFER or ACK and nothing requested.
pub respond-Answers : (packet reply : List ℕ) → respond packet ≡ some reply → Answers packet reply
unfolding respond
respond-Answers packet reply e =
    elim (parse packet)
        as (λ parsed.
          (parse packet ≡ parsed)
          → (elim parsed [
            | none ↦ none
            | some request ↦ reply_to request (reply_type_of request.message_type)
          ])
            ≡ some reply
          → Answers packet reply) [
            | none ↦ λ p e. absurd (ground arith)
            | some request ↦ λ p e.
                reply-Answers packet reply request (reply_type_of request.message_type)
                  (parse-IsRequestOf packet request p) refl e
          ]
      refl e

Ends : Option Found → Type 0
Ends result = (found : Found) × (result ≡ some found)

now : (found : Found) → Ends (some found)
unfolding Ends
now found = (found, refl)

either_Ends : (b : Bool) (x y : Option Found) → Ends x → Ends y → Ends (if b then x else y)
either_Ends true x y hx hy = hx
either_Ends false x y hx hy = hy

-- The loop over the options of a packet ends: the number of the option bytes is fuel enough for it
-- to return what it has found.
pub parse_options_ends :
    (fuel : ℕ) (options : List ℕ) (found : Found)
    → length options ≤ fuel
    → (result : Found) × (parse_options fuel options found ≡ some result)
unfolding parse_options Ends
parse_options_ends zero [] found h = now found
parse_options_ends zero (code ∷ options) found h = absurd (omega arith)
parse_options_ends (suc fuel) [] found h = now found
parse_options_ends (suc fuel) (code ∷ []) found h =
    either_Ends (code == 255) _ _ (now found)
      (either_Ends (code == 0) _ _ (parse_options_ends fuel [] found (omega arith)) (now found))
parse_options_ends (suc fuel) (code ∷ n ∷ bytes) found h =
    either_Ends (code == 255) _ _ (now found) (
      either_Ends (code == 0) _ _ (parse_options_ends fuel (n ∷ bytes) found (omega arith)) (
        either_Ends (ltb (length bytes) n) _ _ (now found) (
          parse_options_ends fuel (drop n bytes) (note_option code (take n bytes) found)
            (omega (arith, length-drop n bytes)))))

reply_type_of_lem :
    (message_type reply_type : ℕ)
    → ((message_type ≡ 1) × (reply_type ≡ 2)) ⊎ ((message_type ≡ 3) × (reply_type ≡ 5))
    → reply_type_of message_type ≡ some reply_type
unfolding reply_type_of
reply_type_of_lem message_type reply_type t = ground arith

parse_found :
    (packet : List ℕ) (message_type : ℕ) (found : Found)
    → refused packet ≡ false
    → parse_options (length packet) (drop 240 packet) nothing_found ≡ some found
    → found.message_type ≡ some message_type
    → (request : DhcpRequest) × (parse packet ≡ some request)
      × (request.message_type ≡ message_type)
unfolding parse
parse_found packet message_type found accepted read named = (
  record {
    xid = slice 4 4 packet;
    flags = slice 10 2 packet;
    client_mac = slice 28 6 packet;
    message_type = message_type;
    requested_ip = found.requested_ip;
  },
  ap
        (λ b.
          if b
          then none
          else request_if_found packet
              (parse_options (length packet) (drop 240 packet) nothing_found))
        accepted
      ∙ ap (request_if_found packet) read
      ∙ ap (λ o. request_of packet (record found { message_type = o })) named,
  refl,
)

-- A packet that is not refused and in whose options DISCOVER or REQUEST is found as the message
-- type is answered, and the server's own parser finds OFFER in the reply to DISCOVER and ACK in the
-- reply to REQUEST.
pub respond_replies :
    (packet : List ℕ) (message_type reply_type : ℕ) (found : Found)
    → refused packet ≡ false
    → parse_options (length packet) (drop 240 packet) nothing_found ≡ some found
    → found.message_type ≡ some message_type
    → ((message_type ≡ 1) × (reply_type ≡ 2)) ⊎ ((message_type ≡ 3) × (reply_type ≡ 5))
    → (reply : List ℕ) × (respond packet ≡ some reply)
      × (parse_options (length reply) (drop 240 reply) nothing_found
          ≡ some (record { message_type = some reply_type; requested_ip = none }))
unfolding respond reply_type_of
respond_replies packet message_type reply_type found accepted read named t =
    let parsed_request = parse_found packet message_type found accepted read named in
    let request = parsed_request.0 in
    let answer : reply_type_of request.message_type ≡ some reply_type =
      ap reply_type_of parsed_request.2 ∙ reply_type_of_lem message_type reply_type t in
    let p = parse-IsRequestOf packet request parsed_request.1 in
    (
      reply_bytes request reply_type (lease_of request),
      ap
            (λ parsed. elim parsed [
              | none ↦ none
              | some request ↦ reply_to request (reply_type_of request.message_type)
            ])
            parsed_request.1
          ∙ ap (reply_to request) answer,
      (packet-Sent packet request reply_type p).type_found,
    )
