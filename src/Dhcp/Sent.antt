-- ===== src/Dhcp/Sent.antt =====
-- The bytes that `write_reply` of src/dhcp.rs makes.
use mathlib.Core.Path.{subst}
use omniportal.Base.{
  ℕ, ◌≡◌, refl, ap, List, [], ◌∷◌, Option, none, some, length, take, drop, slice, get_or, arith,
}
use omniportal.Dhcp.{
  DhcpRequest, nothing_found, note_option, parse_options, push_option, reply_header, write_reply,
}

-- The lists of a request are of fixed sizes, so that they are made of single bytes.
two : (xs : List ℕ) → length xs ≡ 2 → get_or xs 0 0 ∷ get_or xs 1 0 ∷ [] ≡ xs
two [] h = absurd (omega arith)
two (a ∷ []) h = absurd (omega arith)
two (a ∷ b ∷ []) h = refl
two (a ∷ b ∷ c ∷ xs) h = absurd (omega arith)

four :
    (xs : List ℕ)
    → length xs ≡ 4
    → get_or xs 0 0 ∷ get_or xs 1 0 ∷ get_or xs 2 0 ∷ get_or xs 3 0 ∷ [] ≡ xs
four [] h = absurd (omega arith)
four (a ∷ []) h = absurd (omega arith)
four (a ∷ b ∷ xs) h = ap (λ ys. a ∷ b ∷ ys) (two xs (omega arith))

six :
    (xs : List ℕ)
    → length xs ≡ 6
    → get_or xs 0 0
        ∷ get_or xs 1 0
        ∷ get_or xs 2 0
        ∷ get_or xs 3 0
        ∷ get_or xs 4 0
        ∷ get_or xs 5 0
        ∷ []
      ≡ xs
six [] h = absurd (omega arith)
six (a ∷ []) h = absurd (omega arith)
six (a ∷ b ∷ xs) h = ap (λ ys. a ∷ b ∷ ys) (four xs (omega arith))

abbrev pub reply_bytes : DhcpRequest → ℕ → List ℕ → List ℕ
reply_bytes request reply_type lease = let w = write_reply request reply_type lease in take w.1 w.0

-- The fields of the bytes that are sent.
pub record Sent (request : DhcpRequest) (reply_type : ℕ) (lease reply : List ℕ) : Type 0 where
  pub xid_eq : slice 4 4 reply ≡ request.xid
  pub flags_eq : slice 10 2 reply ≡ request.flags
  pub mac_eq : slice 28 6 reply ≡ request.client_mac
  pub lease_eq : slice 16 4 reply ≡ lease
  pub length_eq : length reply ≡ 286
  pub type_found :
      parse_options (length reply) (drop 240 reply) nothing_found
      ≡ some (record { message_type = some reply_type; requested_ip = none })

reply_bytes-Sent :
    (x0 x1 x2 x3 f0 f1 m0 m1 m2 m3 m4 m5 l0 l1 l2 l3 message_type reply_type : ℕ)
    (requested_ip : Option (List ℕ))
    → let request : DhcpRequest = record {
      xid = x0 ∷ x1 ∷ x2 ∷ x3 ∷ [];
      flags = f0 ∷ f1 ∷ [];
      client_mac = m0 ∷ m1 ∷ m2 ∷ m3 ∷ m4 ∷ m5 ∷ [];
      message_type = message_type;
      requested_ip = requested_ip;
    } in
      let lease : List ℕ = l0 ∷ l1 ∷ l2 ∷ l3 ∷ [] in
      Sent request reply_type lease (reply_bytes request reply_type lease)
unfolding write_reply reply_header push_option parse_options note_option
reply_bytes-Sent x0 x1 x2 x3 f0 f1 m0 m1 m2 m3 m4 m5 l0 l1 l2 l3 message_type reply_type
      requested_ip =
    record {
      xid_eq = refl;
      flags_eq = refl;
      mac_eq = refl;
      lease_eq = refl;
      length_eq = refl;
      type_found = refl;
    }

-- `reply_bytes-Sent` for a request and a lease whose lists have their sizes.
pub request-Sent :
    (request : DhcpRequest) (reply_type : ℕ) (lease : List ℕ)
    → length request.xid ≡ 4
    → length request.flags ≡ 2
    → length request.client_mac ≡ 6
    → length lease ≡ 4
    → Sent request reply_type lease (reply_bytes request reply_type lease)
request-Sent request reply_type lease hx hf hm hl =
    let x = request.xid in
    let f = request.flags in
    let m = request.client_mac in
    let xs = get_or x 0 0 ∷ get_or x 1 0 ∷ get_or x 2 0 ∷ get_or x 3 0 ∷ [] in
    let fs = get_or f 0 0 ∷ get_or f 1 0 ∷ [] in
    let ms =
      get_or m 0 0
      ∷ get_or m 1 0
      ∷ get_or m 2 0
      ∷ get_or m 3 0
      ∷ get_or m 4 0
      ∷ get_or m 5 0
      ∷ [] in
    let P : List ℕ → List ℕ → List ℕ → List ℕ → Type 0 = λ x f m l.
      let r : DhcpRequest = record request { xid = x; flags = f; client_mac = m } in
      Sent r reply_type l (reply_bytes r reply_type l) in
    subst (λ y. P y f m lease) (four x hx)
      (subst (λ y. P xs y m lease) (two f hf)
        (subst (λ y. P xs fs y lease) (six m hm)
          (subst (P xs fs ms) (four lease hl) (
            reply_bytes-Sent (get_or x 0 0) (get_or x 1 0) (get_or x 2 0) (get_or x 3 0)
              (get_or f 0 0) (get_or f 1 0) (get_or m 0 0) (get_or m 1 0) (get_or m 2 0)
              (get_or m 3 0) (get_or m 4 0) (get_or m 5 0) (get_or lease 0 0) (get_or lease 1 0)
              (get_or lease 2 0) (get_or lease 3 0) request.message_type reply_type
              request.requested_ip))))
