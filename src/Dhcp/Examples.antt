-- ===== src/Dhcp/Examples.antt =====
-- Tests of src/dhcp.rs.
use omniportal.Base.{none}
use omniportal.Base.{ℕ, ◌≡◌, refl, List, [], ◌∷◌, ◌++◌, some, inl, length, drop, replicate, arith}
use omniportal.Dhcp.{
  Found, nothing_found, parse_options, note_option, parse, respond, reply_type_of, lease_of,
  lease_for_mac, is_assignable_client_address, write_reply, reply_header, push_option, dhcp_magic,
}
use omniportal.Dhcp.Replies.{Answers, respond-Answers, respond_replies, parse_options_ends}

-- A DISCOVER of the client 02:00:00:00:00:07, which asks for 192.168.4.1.
abbrev discover : List ℕ
discover =
    (1 ∷ 1 ∷ 6 ∷ 0 ∷ 17 ∷ 34 ∷ 51 ∷ 68 ∷ 0 ∷ 0 ∷ 128 ∷ 0 ∷ [])
    ++ replicate 16 0
    ++ (2 ∷ 0 ∷ 0 ∷ 0 ∷ 0 ∷ 7 ∷ [])
    ++ replicate 202 0
    ++ dhcp_magic
    ++ (53 ∷ 1 ∷ 1 ∷ 50 ∷ 4 ∷ 192 ∷ 168 ∷ 4 ∷ 1 ∷ 255 ∷ [])

abbrev offer : List ℕ
offer =
    (2 ∷ 1 ∷ 6 ∷ 0 ∷ 17 ∷ 34 ∷ 51 ∷ 68 ∷ 0 ∷ 0 ∷ 128 ∷ 0 ∷ 0 ∷ 0 ∷ 0 ∷ 0 ∷ 192 ∷ 168 ∷ 4 ∷ 107 ∷ 192
      ∷ 168 ∷ 4 ∷ 1 ∷ [])
    ++ replicate 4 0
    ++ (2 ∷ 0 ∷ 0 ∷ 0 ∷ 0 ∷ 7 ∷ [])
    ++ replicate 202 0
    ++ dhcp_magic
    ++ (53 ∷ 1 ∷ 2 ∷ 54 ∷ 4 ∷ 192 ∷ 168 ∷ 4 ∷ 1 ∷ 1 ∷ 4 ∷ 255 ∷ 255 ∷ 255 ∷ 0 ∷ 3 ∷ 4 ∷ 192 ∷ 168
        ∷ 4 ∷ 1 ∷ 6 ∷ 4 ∷ 192 ∷ 168 ∷ 4 ∷ 1 ∷ 51 ∷ 4 ∷ 0 ∷ 1 ∷ 81 ∷ 128 ∷ 58 ∷ 4 ∷ 0 ∷ 0 ∷ 168 ∷ 192
        ∷ 59 ∷ 4 ∷ 0 ∷ 1 ∷ 39 ∷ 80 ∷ 255 ∷ [])

-- The server does not give its own address: the client gets the one of its MAC.
discover-offer : respond discover ≡ some offer
unfolding respond parse parse_options note_option reply_type_of lease_of lease_for_mac
    is_assignable_client_address write_reply reply_header push_option
discover-offer = refl

respond-Answers_example : Answers discover offer
respond-Answers_example = respond-Answers discover offer discover-offer

-- What the options of `discover` hold.
abbrev wanted : Found
wanted = record { message_type = some 1; requested_ip = some (192 ∷ 168 ∷ 4 ∷ 1 ∷ []) }

parse_options_ends_example :
    (result : Found) × (parse_options 10 (drop 240 discover) nothing_found ≡ some result)
parse_options_ends_example = parse_options_ends 10 (drop 240 discover) nothing_found (omega arith)

respond_replies_example :
    (reply : List ℕ) × (respond discover ≡ some reply)
    × (parse_options (length reply) (drop 240 reply) nothing_found
        ≡ some (record { message_type = some 2; requested_ip = none }))
unfolding parse_options note_option
respond_replies_example = respond_replies discover 1 2 wanted refl refl refl (inl (refl, refl))
