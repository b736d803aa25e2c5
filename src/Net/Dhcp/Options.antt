-- ===== src/Net/Dhcp/Options.antt =====
-- The options of DHCP packets in net.cpp: the loop of `dhcp_parse_options` ends within the packet,
-- and finds what the options say.
use vortex_os.Base.{
  ℕ, zero, suc, ◌+◌, ◌-◌, ◌≤◌, ◌<◌, ◌≡◌, ◌∙◌, refl, sym, subst, ap, inl, inr, ◌≢◌, true, not, ◌||◌,
  ltb, some, List, [], ◌∷◌, ◌++◌, length, length-append, Bool-cases, ◌==◌, if◌then◌else◌, ne→==,
  ge→ltb, arith,
}
use mathlib.Core.Path.{fun_ext}
use vortex_os.Net.{Bytes}
use vortex_os.Net.Address.{load_ip}
use vortex_os.Net.Dhcp.{Found, shift, read_option, parse_options, found_or, dhcp_parse_options}

-- What holds of every round but the one that never starts.
from_suc : (P : ℕ → Type 0) (n : ℕ) → ((f : ℕ) → n ≤ f → P (suc f)) → (fuel : ℕ) → n < fuel → P fuel
from_suc P n h zero k = absurd (omega arith)
from_suc P n h (suc f) k = h f (omega arith)

-- By induction on a bound of the bytes that are left.
ends :
    (n : ℕ) (opt : Bytes) (len : ℕ) (found : Found)
    → len ≤ n
    → (result : Found) × ((fuel : ℕ) → len < fuel → parse_options fuel opt len found ≡ some result)
unfolding parse_options
ends zero opt len found b =
    let e : (len == 0) ≡ true = ground arith in
    (found, from_suc (λ fuel. parse_options fuel opt len found ≡ some found) len (λ f h. rw e refl))
ends (suc n) opt len found b = elim (Bool-cases ((len == 0) || (opt 0 == 255))) [
  | inl e ↦ (
    found,
    from_suc (λ fuel. parse_options fuel opt len found ≡ some found) len (λ f h. rw e refl),
  )
  | inr e ↦ elim (Bool-cases (opt 0 == 0)) [
    | inl pad ↦
        let (r, same) = ends n (shift 1 opt) (len - 1) found (omega arith) in
        (
          r,
          from_suc (λ fuel. parse_options fuel opt len found ≡ some r) len
              (λ f h. rw (e, pad) (same f (ground (arith, e)))),
        )
    | inr other ↦ elim (Bool-cases (ltb len (2 + opt 1))) [
      | inl cut ↦ (
        found,
        from_suc (λ fuel. parse_options fuel opt len found ≡ some found) len
            (λ f h. rw (e, other, cut) refl),
      )
      | inr whole ↦
          let after = read_option (opt 0) (opt 1) (shift 2 opt) found in
          let (r, same) = ends n (shift (2 + opt 1) opt) (len - (2 + opt 1)) after (omega arith) in
          (
            r,
            from_suc (λ fuel. parse_options fuel opt len found ≡ some r) len
                (λ f h. rw (e, other, whole) (same f (ground (arith, e)))),
          )
    ]
  ]
]

-- The loop of `dhcp_parse_options` ends: with more rounds than the packet has bytes it comes to a
-- result, the same one whatever the number of rounds.
pub parse_options-ends :
    (opt : Bytes) (len : ℕ) (found : Found)
    → (result : Found) × ((fuel : ℕ) → len < fuel → parse_options fuel opt len found ≡ some result)
parse_options-ends opt len found = ends len opt len found (omega arith)

-- The buffer starts with these bytes.
abbrev pub Starts : List ℕ → Bytes → Type 0
Starts [] packet = Unit {0}
Starts (b ∷ bs) packet = (packet 0 ≡ b) × Starts bs (shift 1 packet)

-- An option: its tag and its data.
abbrev pub DhcpOption : Type 0
DhcpOption = ℕ × List ℕ

-- Options as they stand in a packet, with the mark of their end.
abbrev pub encode : List DhcpOption → List ℕ
encode [] = 255 ∷ []
encode ((tag, text) ∷ options) = tag ∷ length text ∷ text ++ encode options

-- What an option says to the client: the type of the message, or the server's address.
abbrev pub said : DhcpOption → Found → Found
said (tag, b0 ∷ b1 ∷ b2 ∷ b3 ∷ text) found =
    if tag == 53
    then record found { msg_type = b0 }
    else if tag == 54
    then record found {
      server_id = load_ip (record { byte0 = b0; byte1 = b1; byte2 = b2; byte3 = b3 });
    }
    else found
said (tag, b ∷ text) found = if tag == 53 then record found { msg_type = b } else found
said (tag, []) found = found

-- The last option of a kind counts.
abbrev pub said_all : List DhcpOption → Found → Found
said_all [] found = found
said_all (option ∷ options) found = said_all options (said option found)

-- The tags are not those of padding and of the end.
abbrev pub AreTagged : List DhcpOption → Type 0
AreTagged [] = Unit {0}
AreTagged ((tag, text) ∷ options) = (tag ≢ 0) × (tag ≢ 255) × AreTagged options

shift_zero : (packet : Bytes) → shift 0 packet ≡ packet
shift_zero packet = fun_ext (λ k. ap packet (omega arith))

shift-shift : (m n : ℕ) (packet : Bytes) → shift n (shift m packet) ≡ shift (m + n) packet
shift-shift m n packet = fun_ext (λ k. ap packet (omega arith))

Starts-behind :
    (xs ys : List ℕ) (packet : Bytes)
    → Starts (xs ++ ys) packet
    → Starts ys (shift (length xs) packet)
Starts-behind [] ys packet h = subst (Starts ys) (sym (shift_zero packet)) h
Starts-behind (x ∷ xs) ys packet h =
    subst (Starts ys) (shift-shift 1 (length xs) packet ∙ ap (λ n. shift n packet) (omega arith))
      (Starts-behind xs ys (shift 1 packet) h.1)

read-said :
    (tag : ℕ) (text rest : List ℕ) (packet : Bytes) (found : Found)
    → Starts (text ++ rest) packet
    → read_option tag (length text) packet found ≡ said (tag, text) found
unfolding read_option
read-said tag [] rest packet found h = ground arith
read-said tag (b0 ∷ []) rest packet found h = rw (h.0) ground arith
read-said tag (b0 ∷ b1 ∷ []) rest packet found h = rw (h.0) ground arith
read-said tag (b0 ∷ b1 ∷ b2 ∷ []) rest packet found h = rw (h.0) ground arith
read-said tag (b0 ∷ b1 ∷ b2 ∷ b3 ∷ text) rest packet found h =
    rw (h.0, h.1.0, h.1.1.0, h.1.1.1.0) (ground arith)

behind_option :
    (tag : ℕ) (text rest : List ℕ) (packet : Bytes)
    → Starts (tag ∷ length text ∷ text ++ rest) packet
    → Starts rest (shift (2 + length text) packet)
behind_option tag text rest packet h =
    subst (Starts rest)
      (ap (shift (length text)) (shift-shift 1 1 packet) ∙ shift-shift 2 (length text) packet)
      (Starts-behind text rest (shift 1 (shift 1 packet)) h.1.1)

length-encode : (options : List DhcpOption) → 0 < length (encode options)
length-encode [] = omega arith
length-encode ((tag, text) ∷ options) = omega arith

parse-encoded :
    (options : List DhcpOption) (fuel : ℕ) (packet : Bytes) (len : ℕ) (found : Found)
    → AreTagged options
    → Starts (encode options) packet
    → length (encode options) ≤ len
    → len < fuel
    → parse_options fuel packet len found ≡ some (said_all options found)
unfolding parse_options
parse-encoded options zero packet len found t h l f = absurd (omega (arith, length-encode options))
parse-encoded [] (suc fuel) packet len found t h l f =
    let e : (packet 0 == 255) ≡ true = ground (arith, h.0) in ground (arith, e)
parse-encoded ((tag, text) ∷ options) (suc fuel) packet len found (t0, tend, t) h l f =
    let total = length-append text (encode options) in
    let read =
      read-said tag text (encode options) (shift 2 packet) found
        (subst (Starts (text ++ encode options)) (shift-shift 1 1 packet) h.1.1) in
    let rest =
      parse-encoded options fuel (shift (2 + length text) packet) (len - (2 + length text))
        (said (tag, text) found) t (behind_option tag text (encode options) packet h)
        (omega (arith, total)) (omega arith) in
    let longer = ge→ltb len (2 + length text) (omega (arith, total)) in
    let filled = ne→== len 0 (omega arith) in
    rw (h.0, h.1.0, filled, ne→== tag 0 t0, ne→== tag 255 tend, longer, read) rest

-- `dhcp_parse_options` finds what options in a packet say, as a list of tags with their data: a
-- packet that starts with the options encoded, with their lengths and the mark of the end, gives
-- the type of the message and the server's address of the last options that have them, and true
-- if there is a type other than 0. Bytes behind the end mark do not count. No tag is that of
-- padding or of the end.
pub dhcp_parse_options-encoded :
    (options : List DhcpOption) (packet : Bytes) (len : ℕ)
    → AreTagged options
    → Starts (encode options) packet
    → length (encode options) ≤ len
    → let found = said_all options (record { msg_type = 0; server_id = 0 }) in
      dhcp_parse_options packet len ≡ (not (found.msg_type == 0), found)
unfolding dhcp_parse_options
dhcp_parse_options-encoded options packet len t h l =
    ap
      (λ r.
        let found = found_or (record { msg_type = 0; server_id = 0 }) r in
        (not (found.msg_type == 0), found))
      (parse-encoded options (suc len) packet len (record { msg_type = 0; server_id = 0 }) t h l
        (omega arith))
