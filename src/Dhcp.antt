-- ===== src/Dhcp.antt =====
-- src/dhcp.rs: the packets of the DHCP server, and the constants of src/config.rs. The socket is
-- another crate's: `respond` is a round of the loop of `run`, from the packet that came in to the
-- packet that is sent. Addresses and MACs are lists of bytes.
pub mod Packets
pub mod Sent
pub mod Replies
pub mod Examples
use omniportal.Base.{
  ℕ, zero, suc, ◌+◌, ◌-◌, ◌*◌, ◌/◌, ◌%◌, ◌^◌, List, [], ◌∷◌, Bool, true, false, ◌&&◌, ◌||◌, not,
  Option, none, some, ltb, leb, ◌==◌, if◌then◌else◌, get_or, set, length, take, drop, slice, splice,
  replicate, ◌++◌,
}
use omniportal.Base.Bytes.{bytes_eq}

abbrev pub ap_ip_octets : List ℕ
ap_ip_octets = 192 ∷ 168 ∷ 4 ∷ 1 ∷ []

abbrev pub dhcp_pool_start : ℕ
dhcp_pool_start = 100

abbrev pub dhcp_pool_end : ℕ
dhcp_pool_end = 199

abbrev pub dhcp_lease_seconds : ℕ
dhcp_lease_seconds = 24 * 60 * 60

abbrev pub dhcp_min_len : ℕ
dhcp_min_len = 240

abbrev pub dhcp_magic : List ℕ
dhcp_magic = 99 ∷ 130 ∷ 83 ∷ 99 ∷ []

pub record DhcpRequest : Type 0 where
  pub xid : List ℕ
  pub flags : List ℕ
  pub client_mac : List ℕ
  pub message_type : ℕ
  pub requested_ip : Option (List ℕ)

-- What the loop over the options has found.
pub record Found : Type 0 where
  pub message_type : Option ℕ
  pub requested_ip : Option (List ℕ)

abbrev pub nothing_found : Found
nothing_found = record { message_type = none; requested_ip = none }

-- The `match` on an option's code.
unfoldable pub note_option : ℕ → List ℕ → Found → Found
note_option code value found =
    if (code == 53) && (length value == 1)
    then record found { message_type = some (get_or value 0 0) }
    else if (code == 50) && (length value == 4)
    then record found { requested_ip = some value }
    else found

-- The loop, with fuel; `none` means that the fuel ran out before the loop ended.
unfoldable pub parse_options : ℕ → List ℕ → Found → Option Found
unfolding note_option
parse_options zero [] found = some found
parse_options zero (code ∷ options) found = none
parse_options (suc fuel) [] found = some found
parse_options (suc fuel) (code ∷ []) found =
    let padded = parse_options fuel [] found in
    if code == 255 then some found else if code == 0 then padded else some found
parse_options (suc fuel) (code ∷ n ∷ bytes) found =
    let padded = parse_options fuel (n ∷ bytes) found in
    let rest = parse_options fuel (drop n bytes) (note_option code (take n bytes) found) in
    if code == 255
    then some found
    else if code == 0
    then padded
    else if ltb (length bytes) n
    then some found
    else rest

abbrev pub refused : List ℕ → Bool
refused packet =
    ltb (length packet) dhcp_min_len
    || not (get_or packet 0 0 == 1)
    || not (get_or packet 1 0 == 1)
    || not (get_or packet 2 0 == 6)
    || not (bytes_eq (slice 236 4 packet) dhcp_magic)

abbrev pub request_of : List ℕ → Found → Option DhcpRequest
request_of packet found = elim found.message_type [
  | none ↦ none
  | some message_type ↦ some (record {
    xid = slice 4 4 packet;
    flags = slice 10 2 packet;
    client_mac = slice 28 6 packet;
    message_type = message_type;
    requested_ip = found.requested_ip;
  })
]

abbrev pub request_if_found : List ℕ → Option Found → Option DhcpRequest
request_if_found packet none = none
request_if_found packet (some found) = request_of packet found

-- Every round of the loop takes a byte at least, so the length of the packet is fuel enough.
unfoldable pub parse : List ℕ → Option DhcpRequest
unfolding parse_options
parse packet =
    if refused packet
    then none
    else request_if_found packet
        (parse_options (length packet) (drop dhcp_min_len packet) nothing_found)

-- The response with the option behind the others, and the cursor behind it.
unfoldable pub push_option : ℕ → List ℕ → List ℕ × ℕ → List ℕ × ℕ
push_option code value (response, cursor) = (
  splice (cursor + 2) value (set (set response cursor code) (cursor + 1) (length value % 256)),
  cursor + 2 + length value,
)

abbrev pub to_be_bytes : ℕ → List ℕ
to_be_bytes n = n / 16777216 % 256 ∷ n / 65536 % 256 ∷ n / 256 % 256 ∷ n % 256 ∷ []

-- The fixed part of the response.
unfoldable pub reply_header : DhcpRequest → List ℕ → List ℕ
reply_header request lease =
    let response = replicate 576 0 in
    let response = set (set (set response 0 2) 1 1) 2 6 in
    let response = splice 4 request.xid response in
    let response = splice 10 request.flags response in
    let response = splice 16 lease response in
    let response = splice 20 ap_ip_octets response in
    let response = splice 28 request.client_mac response in splice 236 dhcp_magic response

unfoldable pub write_reply : DhcpRequest → ℕ → List ℕ → List ℕ × ℕ
unfolding push_option reply_header
write_reply request message_type lease =
    let w : List ℕ × ℕ = (reply_header request lease, 240) in
    let w = push_option 53 (message_type ∷ []) w in
    let w = push_option 54 ap_ip_octets w in
    let w = push_option 1 (255 ∷ 255 ∷ 255 ∷ 0 ∷ []) w in
    let w = push_option 3 ap_ip_octets w in
    let w = push_option 6 ap_ip_octets w in
    let w = push_option 51 (to_be_bytes dhcp_lease_seconds) w in
    let w = push_option 58 (to_be_bytes (dhcp_lease_seconds / 2)) w in
    let w = push_option 59 (to_be_bytes (dhcp_lease_seconds * 7 / 8)) w in
    (set w.0 w.1 255, w.1 + 1)

unfoldable pub lease_for_mac : List ℕ → List ℕ
lease_for_mac mac =
    let pool_size = dhcp_pool_end - dhcp_pool_start + 1 in
    take 3 ap_ip_octets ++ (dhcp_pool_start + get_or mac 5 0 % pool_size) ∷ []

unfoldable pub is_assignable_client_address : List ℕ → Bool
is_assignable_client_address ip =
    bytes_eq (take 3 ip) (take 3 ap_ip_octets)
    && not (get_or ip 3 0 == 0)
    && not (get_or ip 3 0 == get_or ap_ip_octets 3 0)
    && not (get_or ip 3 0 == 255)

-- `requested_ip.filter(…).unwrap_or_else(…)`.
unfoldable pub lease_of : DhcpRequest → List ℕ
unfolding is_assignable_client_address lease_for_mac
lease_of request = elim request.requested_ip [
  | none ↦ lease_for_mac request.client_mac
  | some ip ↦ if is_assignable_client_address ip then ip else lease_for_mac request.client_mac
]

unfoldable pub reply_type_of : ℕ → Option ℕ
reply_type_of message_type =
    if message_type == 1 then some 2 else if message_type == 3 then some 5 else none

abbrev pub reply_to : DhcpRequest → Option ℕ → Option (List ℕ)
reply_to request none = none
reply_to request (some reply_type) =
    let w = write_reply request reply_type (lease_of request) in some (take w.1 w.0)

unfoldable pub respond : List ℕ → Option (List ℕ)
unfolding parse lease_of reply_type_of write_reply
respond packet = elim (parse packet) [
  | none ↦ none
  | some request ↦ reply_to request (reply_type_of request.message_type)
]
