-- ===== src/Examples/Secrets.antt =====
-- Operations of OPAQUE under which a password file is the password itself, and an order of the names.
use lldap.Common.{
  ℕ, zero, suc, ◌≤◌, ◌+◌, ◌*◌, ◌≡◌, refl, ap, sym, Option, none, some, [], ◌∷◌, arith,
  if◌then◌else◌,
}
use lldap.Text.{Bytes, ◌==◌}
use lldap.Text.Laws.{==_refl}
use lldap.Text.Utf8.{into_bytes}
use lldap.Domain.Types.{UserId}
use lldap.Storage.Opaque.{OpaqueServer}
use lldap.Storage.Passwords.{SealLaws, OpaqueLaws}
use lldap.Storage.Completion.{Exchange}
use lldap.Storage.Listing.{SortedQueries}
use lldap.Examples.World.{client}
use lldap.Examples.Tables.{tables, ann_row, ann_attribute}

-- A pair of texts in one: each character of the first has a mark before it.
abbrev write : Bytes → Bytes → Bytes
write [] s = 0 ∷ s
write (c ∷ u) s = 1 ∷ c ∷ write u s

abbrev push : ℕ → Option (Bytes × Bytes) → Option (Bytes × Bytes)
push c none = none
push c (some (u, s)) = some (c ∷ u, s)

abbrev pub read : Bytes → Option (Bytes × Bytes)
read [] = none
read (zero ∷ s) = some ([], s)
read (suc _ ∷ []) = none
read (suc _ ∷ c ∷ rest) = push c (read rest)

read-write : (u s : Bytes) → read (write u s) ≡ some (u, s)
read-write [] s = refl
read-write (c ∷ u) s = rw (read-write u s) refl

abbrev pub opaque : OpaqueServer
opaque = record {
  start_client_login = λ q. some (into_bytes q, into_bytes q);
  finish_client_login = λ state answer. if state == answer then some state else none;
  start_login = λ file m u. elim file [ none ↦ some ([], []) | some f ↦ some (f, f) ];
  finish_login = λ state final. if state == final then some final else none;
  start_registration = λ m u. some m;
  get_password_file = λ f. f;
  serialize_file = λ f. f;
  deserialize_file = λ f. some f;
  secret_key = some [];
  seal = λ k m. some m;
  unseal = λ k c. some c;
  encode = λ b. b;
  decode = λ b. some b;
  write_registration = λ u. some u;
  read_registration = λ b. some b;
  write_login = λ u s. some (write u s);
  read_login = read;
}

pub seals : SealLaws opaque
seals = record {
  unseal-seal = λ k m c h. sym h;
  decode-encode = λ b. refl;
  read-write_registration = λ u b h. cc h;
  read-write_login =
      λ u state b h. (let same : write u state ≡ b = cc h in rw (← same) (read-write u state));
}

-- The messages of the registration of a password.
unfoldable pub exchange : (u : UserId) (p : Bytes) → Exchange opaque client u p
exchange u p = record {
  message = p;
  state = p;
  response = p;
  upload = p;
  key = [];
  plain = u;
  cipher = u;
  client_starts = refl;
  server_answers = refl;
  client_finishes = refl;
  has_key = refl;
  writes = refl;
  seals = refl;
}

pub protocol : OpaqueLaws opaque client
protocol = record {
  FileOf = λ u p file. file ≡ p;
  registers = λ u p m state response upload e1 e2 e3. cc (e1, e2, e3);
  deserialize-serialize = λ f. refl;
  starts = λ q. ((into_bytes q, into_bytes q), refl);
  answers = λ u file m. ((file, file), refl);
  finishes = λ u p file q m a of e1 e2 same.
      (let alike : m.0 ≡ a.1 = cc (of, e1, e2, same) in rw (alike, ==_refl a.1) (a.1, refl));
  refuses = λ u p file q m a of e1 e2 differ.
      (let asked : m.0 ≡ into_bytes q = cc e1 in
        let stored : a.1 ≡ p = cc (of, e2) in rw (asked, stored, differ) refl);
}

-- A number for each name, by 2^c * (2 * n + 1) for the first character and the number of the rest.
abbrev coded : ℕ → ℕ → ℕ
coded zero n = 2 * n + 1
coded (suc c) n = 2 * coded c n

abbrev number : UserId → ℕ
number [] = 0
number (c ∷ u) = coded c (number u)

coded-positive : (c n : ℕ) → 1 ≤ coded c n
coded-positive zero n = omega arith
coded-positive (suc c) n = let h : 1 ≤ coded c n = coded-positive c n in omega arith

coded_distinct : (c d m n : ℕ) → coded c m ≡ coded d n → (c ≡ d) × (m ≡ n)
coded_distinct zero zero m n h = (refl, omega arith)
coded_distinct zero (suc d) m n h = omega arith
coded_distinct (suc c) zero m n h = omega arith
coded_distinct (suc c) (suc d) m n h =
    let e : coded c m ≡ coded d n = omega arith in
    let (same, rest) = coded_distinct c d m n e in (ap suc same, rest)

number_distinct : (u v : UserId) → number u ≡ number v → u ≡ v
number_distinct [] [] h = refl
number_distinct [] (d ∷ v) h =
    let k : 1 ≤ coded d (number v) = coded-positive d (number v) in grind arith
number_distinct (c ∷ u) [] h =
    let k : 1 ≤ coded c (number u) = coded-positive c (number u) in grind arith
number_distinct (c ∷ u) (d ∷ v) h =
    let (same, rest) = coded_distinct c d (number u) (number v) h in
    let alike : u ≡ v = number_distinct u v rest in cc (same, alike)

pub sorted : SortedQueries tables
unfolding ◌==◌
sorted = record {
  rank = number;
  distinct = number_distinct;
  users_sorted =
      λ c s users e. (let same : (ann_row, []) ∷ [] ≡ users = cc e in rw (← same) (tt, tt));
  rows_sorted = λ c s rows e. (let same : ann_attribute ∷ [] ≡ rows = cc e in rw (← same) (tt, tt));
  rows_owned = λ c s users rows e k.
      (let same : (ann_row, []) ∷ [] ≡ users = cc e in
        let alike : ann_attribute ∷ [] ≡ rows = cc k in rw (← same, ← alike) (refl, tt));
}
