-- ===== src/Preview/Registry/Names.antt =====
-- The key of a name tells the environment and the name.
use paperboat_helper.Base.{◌≡◌, refl, true, false, [], ◌∷◌, ◌++◌, Bytes, arith}
use paperboat_helper.Preview.Record.{name_bytes, valid_name, name_key}

-- No name holds the byte 0.
name_bytes-zero : (e n : Bytes) → name_bytes (e ++ 0 ∷ n) ≡ false
unfolding name_bytes
name_bytes-zero [] n = refl
name_bytes-zero (c ∷ e) n = ground (arith, name_bytes-zero e n)

split_at_zero :
    (e e' n n' : Bytes)
    → name_bytes n ≡ true
    → name_bytes n' ≡ true
    → e ++ 0 ∷ n ≡ e' ++ 0 ∷ n'
    → (e ≡ e') × (n ≡ n')
split_at_zero [] [] n n' v v' h = ground arith
split_at_zero [] (c ∷ e') n n' v v' h =
    let z = name_bytes-zero e' n' in
    let t : n ≡ e' ++ 0 ∷ n' = ground arith in absurd (cc (v, z, t))
split_at_zero (c ∷ e) [] n n' v v' h =
    let z = name_bytes-zero e n in let t : n' ≡ e ++ 0 ∷ n = ground arith in absurd (cc (v', z, t))
split_at_zero (c ∷ e) (c' ∷ e') n n' v v' h =
    let t : e ++ 0 ∷ n ≡ e' ++ 0 ∷ n' = ground arith in
    let first : c ≡ c' = ground arith in
    let rest = split_at_zero e e' n n' v v' t in (ground (arith, rest.0), rest.1)

pub name_key-injective :
    (e e' n n' : Bytes)
    → valid_name n ≡ true
    → valid_name n' ≡ true
    → name_key e n ≡ name_key e' n'
    → (e ≡ e') × (n ≡ n')
unfolding name_key valid_name
name_key-injective e e' n n' v v' h =
    let w : name_bytes n ≡ true = ground arith in
    let w' : name_bytes n' ≡ true = ground arith in split_at_zero e e' n n' w w' h
