-- ===== src/Validators/Bls/Strings.antt =====
-- For the tests of validators/bls.go: RLP of byte strings and of arrays of them, with lengths below 256, as
-- fastrlp writes and reads it.
use nxchain.Base.{
  ℕ, zero, suc, ◌+◌, ◌-◌, ◌≡◌, refl, Option, none, some, List, [], ◌∷◌, ◌++◌, ◌==◌, ltb,
  if◌then◌else◌, length, take, drop, ◌>>=◌, arith, ap,
}
use nxchain.Validators.Bls.{FastRlp}
use nxchain.Validators.Bls.Laws.{ReadsValues}

mutual
  pub data Value : Type 0 where
    string : List ℕ → Value
    array : Values → Value

  pub data Values : Type 0 where
    last : Values
    next : Value → Values → Values

of_list : List Value → Values
of_list [] = last
of_list (v ∷ vs) = next v (of_list vs)

to_list : Values → List Value
to_list last = []
to_list (next v vs) = v ∷ to_list vs

to_list-of_list : (vs : List Value) → to_list (of_list vs) ≡ vs
unfolding to_list of_list
to_list-of_list [] = refl
to_list-of_list (v ∷ vs) = rw (to_list-of_list vs) refl

-- The prefix of a content: its length, or from 56 bytes on a byte with its length.
with_prefix : ℕ → List ℕ → List ℕ
with_prefix base content =
    if ltb (length content) 56
    then (base + length content) ∷ content
    else (base + 56) ∷ length content ∷ content

write_string : List ℕ → List ℕ
write_string (b ∷ []) = if ltb b 128 then b ∷ [] else with_prefix 128 (b ∷ [])
write_string content = with_prefix 128 content

mutual
  unfolding with_prefix write_string

  write_value : Value → List ℕ
  write_value (string content) = write_string content
  write_value (array vs) = with_prefix 192 (write_values vs)

  write_values : Values → List ℕ
  write_values last = []
  write_values (next v vs) = write_value v ++ write_values vs

split_at : ℕ → List ℕ → Option (List ℕ × List ℕ)
split_at n bs = if ltb (length bs) n then none else some (take n bs, drop n bs)

-- A byte string, with the bytes after it.
long_string : List ℕ → Option (List ℕ × List ℕ)
unfolding split_at
long_string [] = none
long_string (n ∷ bs) = split_at n bs

read_string : List ℕ → Option (List ℕ × List ℕ)
unfolding split_at long_string
read_string [] = none
read_string (b ∷ bs) =
    if ltb b 128
    then some (b ∷ [], bs)
    else if ltb b 184
    then split_at (b - 128) bs
    else if b == 184
    then long_string bs
    else none

-- The strings of an array's content; its length is fuel enough, since each string has a byte.
read_strings : ℕ → List ℕ → Option (List Value)
unfolding read_string
read_strings fuel [] = some []
read_strings zero (b ∷ bs) = none
read_strings (suc fuel) (b ∷ bs) = read_string (b ∷ bs) >>= λ (content, rest).
    read_strings fuel rest >>= λ vs. some (string content ∷ vs)

read_array : List ℕ → Option Value
unfolding read_strings of_list
read_array content = read_strings (length content) content >>= λ vs. some (array (of_list vs))

exactly : List ℕ × List ℕ → Option (List ℕ)
exactly (content, []) = some content
exactly _ = none

parse : List ℕ → Option Value
unfolding read_string read_array split_at long_string exactly
parse [] = none
parse (b ∷ bs) =
    let written = read_string (b ∷ bs) >>= exactly >>= λ content. some (string content) in
    let short = split_at (b - 192) bs >>= exactly >>= read_array in
    let long = long_string bs >>= exactly >>= read_array in
    if ltb b 192 then written else if ltb b 248 then short else if b == 248 then long else none

get_elems : Value → Option (List Value)
get_elems (string content) = none
get_elems (array vs) = some (to_list vs)

get_addr : Value → Option (List ℕ)
get_addr (string content) = if length content == 20 then some content else none
get_addr (array vs) = none

get_bytes : Value → Option (List ℕ)
get_bytes (string content) = some content
get_bytes (array vs) = none

-- fastrlp on byte strings and arrays of them.
unfoldable pub strings_rlp : FastRlp Value
unfolding of_list to_list write_value parse get_elems get_addr get_bytes
strings_rlp = record {
  new_bytes = string;
  new_array = λ vs. array (of_list vs);
  marshal = write_value;
  parse = parse;
  get_elems = get_elems;
  get_addr = get_addr;
  get_bytes = get_bytes;
}

pub strings_rlp-ReadsValues : ReadsValues strings_rlp
unfolding strings_rlp get_elems get_addr get_bytes
strings_rlp-ReadsValues = record {
  elems = λ vs. ap some (to_list-of_list vs);
  addr = λ b e. ground arith;
  content = λ b. refl;
}
