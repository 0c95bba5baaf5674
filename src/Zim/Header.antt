-- ===== src/Zim/Header.antt =====
-- What an accepted ZIM header says of the bytes (core/crates/zim-parser/src/header.rs).
use onde_resilience.Prelude.{
  ℕ, suc, ◌+◌, ◌*◌, ◌%◌, ◌≤◌, ◌<◌, ◌≡◌, ◌≢◌, inl, inr, refl, ap, sym, subst, ◌∙◌, String, Bool,
  true, false, ◌||◌, not, some, List, [], ◌∷◌, ◌++◌, ltb, ◌==◌, length, take, drop, slice, arith,
  All, Bool-cases, Option-cases, drop-drop, length-drop, length-append,
}
use onde_resilience.Prelude.Bytes.{from_le_bytes, bytes_eq, bytes_eq_sound}
use onde_resilience.Prelude.Result.{Result, ok, err, and_then-eq-ok}
use onde_resilience.Zim.{
  ZimError, ZimHeader, u32_max, get_range, zero_position, refuse, table_end, read_cstr, Prefix,
  Texts, read_prefix, read_texts, read_tables, parse,
}

abbrev pub NoZero : List ℕ → Type 0
NoZero = All (λ b. b ≢ 0)

zero_position_lem :
    (bs : List ℕ) (i : ℕ)
    → zero_position bs ≡ some i
    → NoZero (take i bs) × (bs ≡ take i bs ++ (0 ∷ drop (suc i) bs)) × (length (take i bs) ≡ i)
unfolding zero_position
zero_position_lem [] i h = cc
zero_position_lem (b ∷ bs) i h = elim (Bool-cases (b == 0)) [
  | inl here ↦
      let at : i ≡ 0 = ground (arith, h, here) in
      rw at (tt, ap (λ x. x ∷ bs) (ground (arith, here)), refl)
  | inr there ↦ elim (Option-cases (zero_position bs)) [
    | inl never ↦ absurd (ground (arith, h, there, never))
    | inr (j, held) ↦
        let at : i ≡ suc j = ground (arith, h, there, held) in
        let (clean, whole, size) = zero_position_lem bs j held in
        rw at
          (((λ zero_b. ground (arith, there, zero_b)), clean), ap (λ xs. b ∷ xs) whole, ap suc size)
  ]
]

table_end_lem :
    (len count pos end : ℕ)
    → table_end len count pos ≡ ok end
    → (end ≡ pos + count * 4) × (end ≤ len) × (end ≤ 4294967295)
unfolding table_end
table_end_lem len count pos end h =
    elim (Bool-cases (ltb len (pos + count * 4) || ltb u32_max (pos + count * 4))) [
      | inl over ↦ absurd (ground (arith, h, over))
      | inr fits ↦
          let at : end ≡ pos + count * 4 = ground (arith, h, fits) in
          rw at (refl, ground (arith, fits), ground (arith, fits))
    ]

get_range_lem :
    (input : List ℕ) (from to : ℕ) (bytes : List ℕ)
    → get_range input from to ≡ ok bytes
    → (to ≤ length input) × (bytes ≡ slice from to input)
unfolding get_range
get_range_lem input from to bytes h = elim (Bool-cases (ltb (length input) to)) [
  | inl short ↦ absurd (ground (arith, h, short))
  | inr long ↦ (ground (arith, long), ground (arith, h, long))
]

ok_pair :
    {a c : String} {b d : ℕ}
    → ◌≡◌ {A = Result ZimError (String × ℕ)} (ok (a, b)) (ok (c, d))
    → (a ≡ c) × (b ≡ d)
ok_pair h = (cc, cc)

negated_test : (b : Bool) → not b ≡ false → b ≡ true
negated_test true h = refl
negated_test false h = cc

-- A position of 32 bits.
no_wrap : (p size : ℕ) → p ≤ size → size < 4294967296 → p ≡ p % 4294967296
no_wrap p size inside small = omega arith

below : (v : ℕ) → ltb 6 v ≡ false → v ≤ 6
below v h = ground (arith, h)

refuse-ok : (b : Bool) (e : ZimError) (u : Unit {0}) → refuse b e ≡ ok u → b ≡ false
refuse-ok true e u h = cc
refuse-ok false e u h = refl

-- What a path between two successes gives.
ok-injective : {A : Type 0} {a b : A} → ◌≡◌ {A = Result ZimError A} (ok a) (ok b) → a ≡ b
ok-injective {A} {a} {b} h = ap (λ (r : Result ZimError A). elim r [ ok x ↦ x | err _ ↦ a ]) h

prefix_lem :
    (input : List ℕ) (p : Prefix)
    → read_prefix input ≡ ok p
    → (slice 0 4 input ≡ 75 ∷ 73 ∷ 77 ∷ 0 ∷ []) × (from_le_bytes (take 2 p.version) ≤ 6)
unfolding read_prefix
prefix_lem input p accepted =
    let (magic, got_magic, h1) = and_then-eq-ok (get_range input 0 4) _ accepted in
    let (u1, is_magic, h2) =
      and_then-eq-ok (refuse (not (bytes_eq magic (75 ∷ 73 ∷ 77 ∷ 0 ∷ []))) ZimError.invalid_magic)
        _ h1 in
    let (ver, got_ver, h3) = and_then-eq-ok (get_range input 4 8) _ h2 in
    let major = from_le_bytes (take 2 ver) in
    let (u2, is_ver, h4) =
      and_then-eq-ok (refuse (ltb 6 major) (ZimError.bad_version major)) _ h3 in
    let (uuid, got_uuid, h5) = and_then-eq-ok (get_range input 8 24) _ h4 in
    let (fixed, got_fixed, h6) = and_then-eq-ok (get_range input 24 36) _ h5 in
    let (_, magic_at) = get_range_lem input 0 4 magic got_magic in
    (
      sym magic_at
          ∙ bytes_eq_sound magic (75 ∷ 73 ∷ 77 ∷ 0 ∷ [])
              (negated_test _ (refuse-ok _ _ u1 is_magic)),
      subst (λ (q : Prefix). from_le_bytes (take 2 q.version) ≤ 6) (ok-injective h6)
          (below major (refuse-ok _ _ u2 is_ver)),
    )

tables_lem :
    (len count mime cluster url titles : ℕ)
    → read_tables len count mime ≡ ok (cluster, url, titles)
    → (cluster ≡ mime + count * 4)
      × (url ≡ cluster + count * 4)
      × (titles ≡ url + count * 4)
      × (titles ≤ len)
unfolding read_tables
tables_lem len count mime cluster url titles accepted =
    let (c, got_c, h1) = and_then-eq-ok (table_end len count mime) _ accepted in
    let (u, got_u, h2) = and_then-eq-ok (table_end len count c) _ h1 in
    let (t, got_t, h3) = and_then-eq-ok (table_end len count u) _ h2 in
    let (c_at, _, _) = table_end_lem len count mime c got_c in
    let (u_at, _, _) = table_end_lem len count c u got_u in
    let (t_at, within, _) = table_end_lem len count u t got_t in
    subst
      (λ (x : ℕ × ℕ × ℕ).
        (x.0 ≡ mime + count * 4) × (x.1 ≡ x.0 + count * 4) × (x.2 ≡ x.1 + count * 4) × (x.2 ≤ len))
      (ok-injective h3) (c_at, u_at, t_at, within)

module _ (lossy : List ℕ → String) where
  -- A text at a position: bytes other than 0, and a 0 behind them.
  pub record IsText (input : List ℕ) (start : ℕ) (text : String) (next : ℕ) : Type 0 where
    pub raw : List ℕ
    pub no_zero : NoZero raw
    pub decoded : text ≡ lossy raw
    pub text_end : next ≡ start + length raw + 1
    pub stands : drop start input ≡ raw ++ (0 ∷ drop next input)

  read_cstr_lem :
      (input : List ℕ) (start : ℕ) (text : String) (next : ℕ)
      → read_cstr lossy input start ≡ ok (text, next)
      → IsText input start text next
  unfolding read_cstr
  read_cstr_lem input start text next h = elim (Option-cases (zero_position (drop start input))) [
    | inl never ↦ absurd (ground (arith, h, never))
    | inr (i, held) ↦
        let (clean, whole, size) = zero_position_lem (drop start input) i held in
        let pair : ◌≡◌ {A = Result ZimError (String × ℕ)}
            (ok (lossy (take i (drop start input)), start + i + 1)) (ok (text, next)) =
          rw (read_cstr, held) at h in
        let (same, at) = ok_pair pair in
        record {
          raw = take i (drop start input);
          no_zero = clean;
          decoded = sym same;
          text_end = omega (arith, at, size);
          stands =
              whole
              ∙ ap (λ xs. take i (drop start input) ++ (0 ∷ xs))
                  (sym (drop-drop start (suc i) next input (omega (arith, at))));
        }
  ]

  -- What an accepted header says of the input.
  pub record IsHeader (input : List ℕ) (h : ZimHeader) : Type 0 where
    pub magic : slice 0 4 input ≡ 75 ∷ 73 ∷ 77 ∷ 0 ∷ []
    pub version : h.major_version ≤ 6
    pub p1 : ℕ
    pub p2 : ℕ
    pub p3 : ℕ
    pub p4 : ℕ
    pub creator_text : IsText input 36 h.creator p1
    pub publisher_text : IsText input p1 h.publisher p2
    pub title_text : IsText input p2 h.title p3
    pub description_text : IsText input p3 h.description p4
    pub language_text : IsText input p4 h.language h.mime_list_pos
    pub cluster_next : h.cluster_ptr_pos ≡ h.mime_list_pos + h.article_count * 4
    pub url_next : h.url_ptr_pos ≡ h.cluster_ptr_pos + h.article_count * 4
    pub title_next : h.title_ptr_pos ≡ h.url_ptr_pos + h.article_count * 4
    pub in_range : h.title_ptr_pos ≤ length input

  text_within :
      (input : List ℕ) (start : ℕ) (text : String) (next : ℕ)
      → IsText input start text next
      → next ≤ length input
  text_within input start text next t = omega (
    arith,
    ap length t.stands,
    length-drop start input,
    length-append t.raw (0 ∷ drop next input),
    length-drop next input,
    t.text_end,
  )

  -- The five texts, one behind the other.
  abbrev pub AreTexts : List ℕ → Texts → Type 0
  AreTexts input t =
      (p1 p2 p3 p4 : ℕ) × IsText input 36 t.texts.0 p1
      × IsText input p1 t.texts.1 p2
      × IsText input p2 t.texts.2 p3
      × IsText input p3 t.texts.3 p4
      × IsText input p4 t.texts.4 t.text_end

  texts_lem : (input : List ℕ) (t : Texts) → read_texts lossy input ≡ ok t → AreTexts input t
  unfolding read_texts
  texts_lem input t accepted =
      let (c1, got1, h1) = and_then-eq-ok (read_cstr lossy input 36) _ accepted in
      let (c2, got2, h2) = and_then-eq-ok (read_cstr lossy input c1.1) _ h1 in
      let (c3, got3, h3) = and_then-eq-ok (read_cstr lossy input c2.1) _ h2 in
      let (c4, got4, h4) = and_then-eq-ok (read_cstr lossy input c3.1) _ h3 in
      let (c5, got5, h5) = and_then-eq-ok (read_cstr lossy input c4.1) _ h4 in
      subst (AreTexts input) (ok-injective h5) (
        c1.1,
        c2.1,
        c3.1,
        c4.1,
        read_cstr_lem input 36 c1.0 c1.1 got1,
        read_cstr_lem input c1.1 c2.0 c2.1 got2,
        read_cstr_lem input c2.1 c3.0 c3.1 got3,
        read_cstr_lem input c3.1 c4.0 c4.1 got4,
        read_cstr_lem input c4.1 c5.0 c5.1 got5,
      )

  -- Where the input is shorter than 2^32 bytes, an accepted header starts with the magic number and
  -- a major version up to 6; five texts without a zero byte, each with a zero behind it, fill the
  -- bytes from 36 to the position of the MIME list; the three tables follow it with 4 bytes for
  -- each article, and the position of the last one lies within the input.
  pub parse_lem :
      (input : List ℕ) (h : ZimHeader)
      → length input < 4294967296
      → parse lossy input ≡ ok h
      → IsHeader input h
  unfolding parse
  parse_lem input h small accepted =
      let (p, got_p, h1) = and_then-eq-ok (read_prefix input) _ accepted in
      let (t, got_t, h2) = and_then-eq-ok (read_texts lossy input) _ h1 in
      let count = from_le_bytes (slice 4 8 p.fixed) in
      let ((cluster, url, titles), got_tables, h3) =
        and_then-eq-ok (read_tables (length input) count (t.text_end % 4294967296)) _ h2 in
      let (magic_at, old) = prefix_lem input p got_p in
      let (p1, p2, p3, p4, t1, t2, t3, t4, t5) = texts_lem input t got_t in
      let (cluster_at, url_at, titles_at, within) =
        tables_lem (length input) count (t.text_end % 4294967296) cluster url titles got_tables in
      let mime =
        no_wrap t.text_end (length input) (text_within input p4 t.texts.4 t.text_end t5) small in
      subst (IsHeader input) (ok-injective h3) (record {
        magic = magic_at;
        version = old;
        p1 = p1;
        p2 = p2;
        p3 = p3;
        p4 = p4;
        creator_text = t1;
        publisher_text = t2;
        title_text = t3;
        description_text = t4;
        language_text = subst (λ n. IsText input p4 t.texts.4 n) mime t5;
        cluster_next = cluster_at;
        url_next = url_at;
        title_next = titles_at;
        in_range = within;
      })
