-- ===== src/Lddc/Distinct.antt =====
-- src/lddc.cpp and src/comm/comm.cpp: the topics of different lidars.
use mathlib.Core.List.{append_cancel_left}
use livox_ros_driver.Common.{
  ℕ, zero, suc, ◌^◌, ◌<◌, ◌≤◌, ◌≡◌, ◌≢◌, refl, sym, ap, ◌∙◌, List, [], ◌∷◌, ◌++◌, map, length, take,
  arith, length-append,
}
use livox_ros_driver.Comm.Names.{replace_period_by_underline_lem, underlined, underline}
use livox_ros_driver.ParseCfg.{Inet}
use livox_ros_driver.Lddc.Topics.{private_topic}

unfoldable pub NoUnderline : List ℕ → Type 0
NoUnderline [] = Unit {0}
NoUnderline (c ∷ cs) = (c ≢ underline) × NoUnderline cs

-- What the code relies on: `inet_ntoa` writes an address of 32 bits as at most 15 characters,
-- digits and periods, and no two addresses alike.
pub record IsDotted (inet : Inet) : Type 0 where
  pub short : (h : ℕ) → length (inet.ip_num_to_string h) ≤ 15
  pub plain : (h : ℕ) → NoUnderline (inet.ip_num_to_string h)
  pub injective :
      (a b : ℕ)
      → a < 2 ^ 32
      → b < 2 ^ 32
      → inet.ip_num_to_string a ≡ inet.ip_num_to_string b
      → a ≡ b

underlined_injective :
    (a b : ℕ) → a ≢ underline → b ≢ underline → underlined a ≡ underlined b → a ≡ b
underlined_injective a b na nb e = ground (arith, na, nb, e)

tail_equal : {a b : ℕ} {cs ds : List ℕ} → a ∷ cs ≡ b ∷ ds → (a ≡ b) × (cs ≡ ds)
tail_equal e = (cc, cc)

map-underlined_injective :
    (cs ds : List ℕ)
    → NoUnderline cs
    → NoUnderline ds
    → map underlined cs ≡ map underlined ds
    → cs ≡ ds
unfolding NoUnderline
map-underlined_injective [] [] p q e = refl
map-underlined_injective [] (b ∷ ds) p q e = cc
map-underlined_injective (a ∷ cs) [] p q e = cc
map-underlined_injective (a ∷ cs) (b ∷ ds) p q e =
    let (heads, tails) = tail_equal e in
    let first : a ≡ b = underlined_injective a b p.0 q.0 heads in
    let rest : cs ≡ ds = map-underlined_injective cs ds p.1 q.1 tails in
    ap (λ (c : ℕ). c ∷ cs) first ∙ ap (λ (text : List ℕ). b ∷ text) rest

take_all : (n : ℕ) (xs : List ℕ) → length xs ≤ n → take n xs ≡ xs
take_all zero [] h = refl
take_all zero (x ∷ xs) h = absurd (omega arith)
take_all (suc n) [] h = refl
take_all (suc n) (x ∷ xs) h = ap (λ (ys : List ℕ). x ∷ ys) (take_all n xs (omega arith))

length-map-underlined : (xs : List ℕ) → length (map underlined xs) ≡ length xs
length-map-underlined [] = refl
length-map-underlined (x ∷ xs) = ap suc (length-map-underlined xs)

-- With a short prefix the buffer holds the whole name.
private_topic_whole :
    (inet : Inet) (prefix : List ℕ) (h : ℕ)
    → IsDotted inet
    → length prefix ≤ 32
    → private_topic inet prefix h ≡ prefix ++ map underlined (inet.ip_num_to_string h)
unfolding private_topic
private_topic_whole inet prefix h dotted small =
    let text = inet.ip_num_to_string h in
    rw (replace_period_by_underline_lem text) (
      take_all 47 (prefix ++ map underlined text) (
        omega (
          arith,
          length-append prefix (map underlined text),
          length-map-underlined text,
          dotted.short h,
        )))

private_topic_injective :
    (inet : Inet) (prefix : List ℕ) (a b : ℕ)
    → IsDotted inet
    → length prefix ≤ 32
    → a < 2 ^ 32
    → b < 2 ^ 32
    → private_topic inet prefix a ≡ private_topic inet prefix b
    → a ≡ b
private_topic_injective inet prefix a b dotted small wa wb same = dotted.injective a b wa wb (
    map-underlined_injective (inet.ip_num_to_string a) (inet.ip_num_to_string b) (dotted.plain a)
      (dotted.plain b)
      (append_cancel_left prefix (map underlined (inet.ip_num_to_string a))
        (map underlined (inet.ip_num_to_string b))
        (sym (private_topic_whole inet prefix a dotted small)
          ∙ same
          ∙ private_topic_whole inet prefix b dotted small)))

-- Where `inet_ntoa` writes two addresses of 32 bits differently, in at most 15 characters and
-- without an underline: the private topics of two lidars with different handles, behind one
-- prefix of at most 32 characters, differ, although periods become underlines and the buffer has
-- 48 bytes.
pub private_topics_differ :
    (inet : Inet) (prefix : List ℕ) (a b : ℕ)
    → IsDotted inet
    → length prefix ≤ 32
    → a < 2 ^ 32
    → b < 2 ^ 32
    → a ≢ b
    → private_topic inet prefix a ≢ private_topic inet prefix b
private_topics_differ inet prefix a b dotted small wa wb ne same =
    ne (private_topic_injective inet prefix a b dotted small wa wb same)
