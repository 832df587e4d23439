-- ===== src/Dhcp/Packets.antt =====
-- What `parse` of src/dhcp.rs reads, and the addresses that the server gives.
use mathlib.Core.Path.{subst}
use mathlib.Core.Option.{some-injective}
use omniportal.Base.{
  ℕ, zero, suc, ◌+◌, ◌≤◌, ◌≡◌, refl, ◌⊎◌, List, [], ◌∷◌, Bool, true, false, ◌&&◌, ◌||◌, not, Option,
  none, some, length, take, drop, slice, ltb, ◌==◌, if◌then◌else◌, get_or, arith, length-take,
  length-drop,
}
use omniportal.Base.Bytes.{bytes_eq_sound}
use omniportal.Dhcp.{
  DhcpRequest, Found, nothing_found, note_option, parse_options, parse, refused, request_of,
  request_if_found, lease_for_mac, is_assignable_client_address, lease_of, reply_type_of,
}

-- The length of the requested address, or the four bytes of an address where none is requested.
abbrev pub address_length : Option (List ℕ) → ℕ
address_length none = 4
address_length (some ip) = length ip

if-Choice {ℓ ℓ'} :
    {A : Type ℓ} (P : A → Type ℓ') (b : Bool) (x y : A)
    → ((b ≡ true) → P x)
    → P y
    → P (if b then x else y)
if-Choice P true x y hx hy = hx refl
if-Choice P false x y hx hy = hy

IsAddress : Found → Type 0
IsAddress found = address_length found.requested_ip ≡ 4

note_option-IsAddress :
    (code : ℕ) (value : List ℕ) (found : Found)
    → IsAddress found
    → IsAddress (note_option code value found)
unfolding note_option IsAddress
note_option-IsAddress code value found h =
    if-Choice IsAddress ((code == 53) && (length value == 1)) _ _ (λ e. h)
      (if-Choice IsAddress ((code == 50) && (length value == 4)) _ _ (λ e. ground arith) h)

AllFound : Option Found → Type 0
AllFound none = Unit
AllFound (some found) = IsAddress found

parse_options-AllFound :
    (fuel : ℕ) (options : List ℕ) (found : Found)
    → IsAddress found
    → AllFound (parse_options fuel options found)
unfolding parse_options AllFound
parse_options-AllFound zero [] found h = h
parse_options-AllFound zero (code ∷ options) found h = tt
parse_options-AllFound (suc fuel) [] found h = h
parse_options-AllFound (suc fuel) (code ∷ []) found h =
    if-Choice AllFound (code == 255) _ _ (λ e. h)
      (if-Choice AllFound (code == 0) _ _ (λ e. parse_options-AllFound fuel [] found h) h)
parse_options-AllFound (suc fuel) (code ∷ n ∷ bytes) found h =
    if-Choice AllFound (code == 255) _ _ (λ e. h)
      (if-Choice AllFound (code == 0) _ _ (λ e. parse_options-AllFound fuel (n ∷ bytes) found h)
        (if-Choice AllFound (ltb (length bytes) n) _ _ (λ e. h)
          (parse_options-AllFound fuel (drop n bytes) (note_option code (take n bytes) found)
            (note_option-IsAddress code (take n bytes) found h))))

pub length-slice : (at n : ℕ) (xs : List ℕ) → at + n ≤ length xs → length (slice at n xs) ≡ n
length-slice at n xs h = omega (arith, length-take n (drop at xs), length-drop at xs)

-- What the server has read in a packet that it does not refuse.
pub record IsRequestOf (packet : List ℕ) (request : DhcpRequest) : Type 0 where
  pub xid_eq : request.xid ≡ slice 4 4 packet
  pub flags_eq : request.flags ≡ slice 10 2 packet
  pub mac_eq : request.client_mac ≡ slice 28 6 packet
  pub is_long : 240 ≤ length packet
  pub ip_length : address_length request.requested_ip ≡ 4

request_of-IsRequestOf :
    (packet : List ℕ) (found : Found) (request : DhcpRequest) (message_type : Option ℕ)
    → 240 ≤ length packet
    → IsAddress found
    → request_of packet (record found { message_type = message_type }) ≡ some request
    → IsRequestOf packet request
unfolding IsAddress
request_of-IsRequestOf packet found request none is_long h e = absurd (ground arith)
request_of-IsRequestOf packet found request (some t) is_long h e =
    subst (IsRequestOf packet) (some-injective _ _ e)
      (record { xid_eq = refl; flags_eq = refl; mac_eq = refl; is_long = is_long; ip_length = h })

request_if_found-IsRequestOf :
    (packet : List ℕ) (found : Option Found) (request : DhcpRequest)
    → 240 ≤ length packet
    → AllFound found
    → request_if_found packet found ≡ some request
    → IsRequestOf packet request
unfolding AllFound
request_if_found-IsRequestOf packet none request is_long h e = absurd (ground arith)
request_if_found-IsRequestOf packet (some found) request is_long h e =
    request_of-IsRequestOf packet found request found.message_type is_long h e

first_test : (a b c d e : Bool) → (a || b || c || d || e) ≡ false → a ≡ false
first_test true b c d e h = h
first_test false b c d e h = refl

not_short : (n : ℕ) → ltb n 240 ≡ false → 240 ≤ n
not_short n h = ground arith

refused-length : (packet : List ℕ) → refused packet ≡ false → 240 ≤ length packet
refused-length packet h = not_short (length packet) (first_test (ltb (length packet) 240) _ _ _ _ h)

pub parse-IsRequestOf :
    (packet : List ℕ) (request : DhcpRequest)
    → parse packet ≡ some request
    → IsRequestOf packet request
unfolding parse IsAddress
parse-IsRequestOf packet request e =
    let found = parse_options (length packet) (drop 240 packet) nothing_found in
    elim (refused packet)
        as (λ b.
          (refused packet ≡ b)
          → (if b then none else request_if_found packet found) ≡ some request
          → IsRequestOf packet request) [
            | true ↦ λ r e'. absurd (ground arith)
            | false ↦ λ r e'.
                request_if_found-IsRequestOf packet found request (refused-length packet r)
                  (parse_options-AllFound (length packet) (drop 240 packet) nothing_found refl) e'
          ]
      refl e

-- An address of the network that is neither the network's, the server's nor the broadcast address.
pub record IsClientAddress (ip : List ℕ) : Type 0 where
  pub network_eq : take 3 ip ≡ 192 ∷ 168 ∷ 4 ∷ []
  pub not_network : ¬ (get_or ip 3 0 ≡ 0)
  pub not_server : ¬ (get_or ip 3 0 ≡ 1)
  pub not_broadcast : ¬ (get_or ip 3 0 ≡ 255)

four_tests :
    (a b c d : Bool) → (a && b && c && d) ≡ true → (a ≡ true) × (b ≡ true) × (c ≡ true) × (d ≡ true)
four_tests a b c d h = ground arith

not_equal : (m n : ℕ) → not (m == n) ≡ true → ¬ (m ≡ n)
not_equal m n h e = absurd (ground arith)

is_assignable_client_address-IsClientAddress :
    (ip : List ℕ) → is_assignable_client_address ip ≡ true → IsClientAddress ip
unfolding is_assignable_client_address
is_assignable_client_address-IsClientAddress ip h =
    let t = four_tests _ _ _ _ h in
    record {
      network_eq = bytes_eq_sound _ _ t.0;
      not_network = not_equal _ _ t.1;
      not_server = not_equal _ _ t.2;
      not_broadcast = not_equal _ _ t.3;
    }

unfoldable pub IsLease : List ℕ → Type 0
IsLease ip = (length ip ≡ 4) × IsClientAddress ip

lease_for_mac_assignable : (mac : List ℕ) → is_assignable_client_address (lease_for_mac mac) ≡ true
unfolding lease_for_mac is_assignable_client_address
lease_for_mac_assignable mac = ground arith

lease_for_mac-IsLease : (mac : List ℕ) → IsLease (lease_for_mac mac)
unfolding IsLease lease_for_mac
lease_for_mac-IsLease mac =
    (refl, is_assignable_client_address-IsClientAddress _ (lease_for_mac_assignable mac))

pub lease_of-IsLease :
    (request : DhcpRequest) (ip : Option (List ℕ))
    → address_length ip ≡ 4
    → IsLease (lease_of (record request { requested_ip = ip }))
unfolding lease_of IsLease
lease_of-IsLease request none h = lease_for_mac-IsLease request.client_mac
lease_of-IsLease request (some ip) h =
    if-Choice IsLease (is_assignable_client_address ip) ip _
      (λ e. (h, is_assignable_client_address-IsClientAddress ip e))
      (lease_for_mac-IsLease request.client_mac)

pub reply_type_of-cases :
    (message_type reply_type : ℕ)
    → reply_type_of message_type ≡ some reply_type
    → (reply_type ≡ 2) ⊎ (reply_type ≡ 5)
unfolding reply_type_of
reply_type_of-cases message_type reply_type e = ground arith
