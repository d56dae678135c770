-- ===== src/Enr/Sharding/Indices.antt =====
-- waku/waku_enr/sharding.nim: the list of indices and its reader.
use nwaku.Base.{
  ℕ, zero, suc, ◌+◌, ◌*◌, ◌%◌, ◌^◌, ◌≤◌, ◌<◌, ◌≡◌, refl, sym, ap, ap₂, arith, ltb, ◌==◌, true,
  false, inl, inr, Bool-cases, List, [], ◌∷◌, ◌++◌, length, length-append, take, drop, length-drop,
  All, subst,
}
use nwaku.Base64.{IsByte}
use nwaku.Enr.Sharding.{
  Endians, Result, ok, err, RelayShards, shard_bytes, to_indices_list, read_shards,
  from_indices_list,
}

abbrev pub IsUint16 : ℕ → Type 0
IsUint16 n = n < 2 ^ 16

module _ {ℓ} {A : Type ℓ} where
  append_assoc : (xs ys zs : List A) → (xs ++ ys) ++ zs ≡ xs ++ (ys ++ zs)
  append_assoc [] ys zs = refl
  append_assoc (x ∷ xs) ys zs = rw (append_assoc xs ys zs)

  pub drop-append : (n : ℕ) (xs ys : List A) → length xs ≡ n → drop n (xs ++ ys) ≡ ys
  drop-append zero [] ys e = refl
  drop-append (suc n) [] ys e = absurd (omega arith)
  drop-append zero (x ∷ xs) ys e = absurd (omega arith)
  drop-append (suc n) (x ∷ xs) ys e = drop-append n xs ys (omega arith)

  pub take-append : (n : ℕ) (xs ys : List A) → length xs ≡ n → take n (xs ++ ys) ≡ xs
  take-append zero [] ys e = refl
  take-append (suc n) [] ys e = absurd (omega arith)
  take-append zero (x ∷ xs) ys e = absurd (omega arith)
  take-append (suc n) (x ∷ xs) ys e = rw (take-append n xs ys (omega arith))

  drop-drop : (m n k : ℕ) (xs : List A) → k ≡ n + m → drop m (drop n xs) ≡ drop k xs
  drop-drop m zero k xs e = ap (λ (t : ℕ). drop t xs) (omega arith)
  drop-drop m (suc n) zero xs e = absurd (omega arith)
  drop-drop zero (suc n) (suc k) [] e = refl
  drop-drop (suc m) (suc n) (suc k) [] e = refl
  drop-drop m (suc n) (suc k) (x ∷ xs) e = drop-drop m n k xs (omega arith)

  drop-all : (n : ℕ) (xs : List A) → length xs ≡ n → drop n xs ≡ []
  drop-all zero [] e = refl
  drop-all (suc n) [] e = refl
  drop-all zero (x ∷ xs) e = absurd (omega arith)
  drop-all (suc n) (x ∷ xs) e = drop-all n xs (omega arith)

  All-drop {κ} : (P : A → Type κ) (n : ℕ) (xs : List A) → All P xs → All P (drop n xs)
  All-drop P zero xs h = h
  All-drop P (suc n) [] h = tt
  All-drop P (suc n) (x ∷ xs) h = All-drop P n xs h.1

  pub pair_lem : (xs : List A) → length xs ≡ 2 → (a : A) × (b : A) × (xs ≡ a ∷ b ∷ [])
  pair_lem [] e = absurd (omega arith)
  pair_lem (a ∷ []) e = absurd (omega arith)
  pair_lem (a ∷ b ∷ []) e = (a, b, refl)
  pair_lem (a ∷ b ∷ c ∷ more) e = absurd (omega arith)

module _ (endians : Endians) where
  open endians use {to_bytes_be, from_bytes_be, length-to_bytes_be, from-to, to-from}

  length-shard_bytes : (ids : List ℕ) → length (shard_bytes endians ids) ≡ 2 * length ids
  unfolding shard_bytes
  length-shard_bytes [] = omega arith
  length-shard_bytes (id ∷ ids) = omega (
    arith,
    length-append (to_bytes_be id) (shard_bytes endians ids),
    length-to_bytes_be id,
    length-shard_bytes ids,
  )

  read_shards-shard_bytes :
      (front ids : List ℕ) (i : ℕ)
      → All IsUint16 ids
      → length front ≡ 3 + 2 * i
      → read_shards endians (front ++ shard_bytes endians ids) i (length ids) ≡ ids
  unfolding read_shards shard_bytes
  read_shards-shard_bytes front [] i h e = refl
  read_shards-shard_bytes front (id ∷ ids) i h e =
      let longer : length (front ++ to_bytes_be id) ≡ 3 + 2 * suc i =
        omega (arith, length-append front (to_bytes_be id), length-to_bytes_be id) in
      let rest = read_shards-shard_bytes (front ++ to_bytes_be id) ids (suc i) h.1 longer in
      let behind = shard_bytes endians ids in
      ap₂ ◌∷◌
        (rw
          (
            drop-append (3 + 2 * i) front (to_bytes_be id ++ behind) e,
            take-append 2 (to_bytes_be id) behind (length-to_bytes_be id),
          )
          (from-to id h.0))
        (subst (λ (buf : List ℕ). read_shards endians buf (suc i) (length ids) ≡ ids)
          (append_assoc front (to_bytes_be id) behind) rest)

  -- For a cluster and shards that are of 16 bits, at most 255 of them: `to_indices_list` gives a
  -- sequence of bytes, and `from_indices_list` gives the same cluster and shards back.
  pub from_indices_list-to_indices_list :
      (rs : RelayShards)
      → IsUint16 rs.cluster_id
      → All IsUint16 rs.shard_ids
      → length rs.shard_ids ≤ 255
      → (buf : List ℕ) × (to_indices_list endians rs ≡ ok buf)
        × (from_indices_list endians buf ≡ ok rs)
  unfolding to_indices_list from_indices_list
  from_indices_list-to_indices_list rs c ids short =
      let n = length rs.shard_ids in
      let fits : ltb 255 n ≡ false = ground arith in
      let whole : n % 256 ≡ n = omega arith in
      let (a, b, two) = pair_lem (to_bytes_be rs.cluster_id) (length-to_bytes_be rs.cluster_id) in
      let shards = shard_bytes endians rs.shard_ids in
      let sized : (length (a ∷ b ∷ n ∷ shards) == 3 + 2 * n) ≡ true =
        ground (arith, length-shard_bytes rs.shard_ids) in
      let back : read_shards endians (a ∷ b ∷ n ∷ shards) 0 n ≡ rs.shard_ids =
        read_shards-shard_bytes (a ∷ b ∷ n ∷ []) rs.shard_ids 0 ids refl in
      let cluster : from_bytes_be (a ∷ b ∷ []) ≡ rs.cluster_id =
        rw two at (from-to rs.cluster_id c) in
      (to_bytes_be rs.cluster_id ++ n ∷ shards, rw (fits, whole), rw (two, sized, back, cluster))

  length-read_shards : (buf : List ℕ) (i n : ℕ) → length (read_shards endians buf i n) ≡ n
  unfolding read_shards
  length-read_shards buf i zero = refl
  length-read_shards buf i (suc n) = omega (arith, length-read_shards buf (suc i) n)

  -- Two bytes at the front of a sequence, through their number.
  bytes_lem :
      (xs : List ℕ)
      → 2 ≤ length xs
      → All IsByte xs
      → to_bytes_be (from_bytes_be (take 2 xs)) ++ drop 2 xs ≡ xs
  bytes_lem [] le h = absurd (omega arith)
  bytes_lem (a ∷ []) le h = absurd (omega arith)
  bytes_lem (a ∷ b ∷ more) le h = rw (to-from a b h.0 h.1.0)

  shard_bytes-read_shards :
      (buf : List ℕ) (i n : ℕ)
      → All IsByte buf
      → length buf ≡ 3 + 2 * (i + n)
      → shard_bytes endians (read_shards endians buf i n) ≡ drop (3 + 2 * i) buf
  unfolding read_shards shard_bytes
  shard_bytes-read_shards buf i zero h e = sym (drop-all (3 + 2 * i) buf (omega arith))
  shard_bytes-read_shards buf i (suc n) h e =
      let at_i = drop (3 + 2 * i) buf in
      rw
        (
          shard_bytes-read_shards buf (suc i) n h (omega arith),
          sym (drop-drop 2 (3 + 2 * i) (3 + 2 * suc i) buf (omega arith)),
        )
        (bytes_lem at_i (omega (arith, length-drop (3 + 2 * i) buf))
          (All-drop IsByte (3 + 2 * i) buf h))

  ok-injective : {x y : RelayShards} → ok x ≡ ok y → x ≡ y
  ok-injective {x} e = ap (λ (r : Result RelayShards). elim r [ ok z ↦ z | err t ↦ x ]) e

  -- Whatever bytes `from_indices_list` accepts, `to_indices_list` gives them back.
  pub to_indices_list-from_indices_list :
      (buf : List ℕ) (rs : RelayShards)
      → All IsByte buf
      → from_indices_list endians buf ≡ ok rs
      → to_indices_list endians rs ≡ ok buf
  unfolding to_indices_list from_indices_list
  to_indices_list-from_indices_list [] rs h e = cc
  to_indices_list-from_indices_list (a ∷ []) rs h e = cc
  to_indices_list-from_indices_list (a ∷ b ∷ []) rs h e = cc
  to_indices_list-from_indices_list (a ∷ b ∷ len ∷ more) rs h e =
      let buf = a ∷ b ∷ len ∷ more in
      elim (Bool-cases (length buf == 3 + 2 * len)) [
        | inl sized ↦
            let is : record {
              cluster_id = from_bytes_be (a ∷ b ∷ []);
              shard_ids = read_shards endians buf 0 len;
            }
                ≡ rs =
              ok-injective (rw sized at e) in
            subst (λ (r : RelayShards). to_indices_list endians r ≡ ok buf) is
              (let count = length-read_shards buf 0 len in
                let fits : ltb 255 len ≡ false = ground arith in
                let whole : len % 256 ≡ len = omega arith in
                let sized' : length buf ≡ 3 + 2 * (0 + len) = ground arith in
                rw (
                  count,
                  fits,
                  whole,
                  to-from a b h.0 h.1.0,
                  shard_bytes-read_shards buf 0 len h sized',
                ))
        | inr other ↦ cc (rw other at e)
      ]
