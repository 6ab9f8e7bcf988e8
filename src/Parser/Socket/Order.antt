-- ===== src/Parser/Socket/Order.antt =====
-- The sockets of a section in the order of the file.
use rustysd.Prelude.{
  ℕ, ◌≤◌, List, [], ◌∷◌, arith, leb, All, All-map, Bool-cases, inl, inr, String, map, some, refl,
  ap, subst, ◌≡◌, ◌++◌, if◌then◌else◌, ◌==◌, string_eq,
}
use mathlib.Core.List.{Perm}
use mathlib.Core.List.Perm
use rustysd.Prelude.Map.{get}
use rustysd.Units.Config.{SocketKind}
use rustysd.Parser.Section.{ParsedSection}
use rustysd.Parser.Socket.{insert_by_number, sort_by_number, all_kinds, socket_kinds, kinds_of}

-- The numbers never go down.
abbrev pub IsOrdered : List (ℕ × SocketKind) → Type 0
IsOrdered [] = Unit
IsOrdered ((n, k) ∷ rest) = All (λ x. n ≤ x.0) rest × IsOrdered rest

insert_by_number-All :
    (m n : ℕ) (k : SocketKind) (xs : List (ℕ × SocketKind))
    → m ≤ n
    → All (λ x. m ≤ x.0) xs
    → All (λ x. m ≤ x.0) (insert_by_number (n, k) xs)
unfolding insert_by_number
insert_by_number-All m n k [] h a = (h, tt)
insert_by_number-All m n k ((i, j) ∷ xs) h a = elim (Bool-cases (leb n i)) [
  | inl le ↦ rw (le, insert_by_number) (h, (a.0, a.1))
  | inr gt ↦ rw (gt, insert_by_number) (a.0, insert_by_number-All m n k xs h a.1)
]

insert_by_number-IsOrdered :
    (n : ℕ) (k : SocketKind) (xs : List (ℕ × SocketKind))
    → IsOrdered xs
    → IsOrdered (insert_by_number (n, k) xs)
unfolding insert_by_number
insert_by_number-IsOrdered n k [] h = (tt, tt)
insert_by_number-IsOrdered n k ((i, j) ∷ xs) h = elim (Bool-cases (leb n i)) [
  | inl le ↦
      let first : n ≤ i = ground arith in
      rw (le, insert_by_number)
        ((first, All-map (λ x. i ≤ x.0) (λ x. n ≤ x.0) xs (λ x p. omega arith) h.0), h)
  | inr gt ↦
      let first : i ≤ n = ground arith in
      rw (gt, insert_by_number)
        (insert_by_number-All i n k xs first h.0, insert_by_number-IsOrdered n k xs h.1)
]

sort_by_number-IsOrdered : (xs : List (ℕ × SocketKind)) → IsOrdered (sort_by_number xs)
unfolding sort_by_number
sort_by_number-IsOrdered [] = tt
sort_by_number-IsOrdered ((n, k) ∷ xs) =
    insert_by_number-IsOrdered n k (sort_by_number xs) (sort_by_number-IsOrdered xs)

insert_by_number-Perm :
    (x : ℕ × SocketKind) (xs : List (ℕ × SocketKind)) → Perm (insert_by_number x xs) (x ∷ xs)
unfolding insert_by_number
insert_by_number-Perm (n, k) [] = Perm.refl ((n, k) ∷ [])
insert_by_number-Perm (n, k) ((i, j) ∷ xs) = elim (Bool-cases (leb n i)) [
  | inl le ↦ rw (le, insert_by_number) (Perm.refl ((n, k) ∷ (i, j) ∷ xs))
  | inr gt ↦
      rw (gt, insert_by_number)
        (Perm.trans (Perm.cons (i, j) (insert_by_number-Perm (n, k) xs))
          (Perm.swap (n, k) (i, j) xs))
]

sort_by_number-Perm : (xs : List (ℕ × SocketKind)) → Perm (sort_by_number xs) xs
unfolding sort_by_number
sort_by_number-Perm [] = Perm.refl []
sort_by_number-Perm (x ∷ xs) =
    Perm.trans (insert_by_number-Perm x (sort_by_number xs)) (Perm.cons x (sort_by_number-Perm xs))

-- The values of a setting with their numbers.
abbrev pub values : String → ParsedSection → List (ℕ × String)
values setting [] = []
values setting ((name, vec) ∷ section) = if name == setting then vec else values setting section

-- The sockets that a section lists: a stream, a datagram, a sequential packet socket or a fifo for each value of
-- the four settings.
abbrev pub listed : ParsedSection → List (ℕ × SocketKind)
listed section =
    map (λ v. (v.0, SocketKind.stream v.1)) (values "LISTENSTREAM" section)
    ++ (map (λ v. (v.0, SocketKind.datagram v.1)) (values "LISTENDATAGRAM" section)
        ++ (map (λ v. (v.0, SocketKind.sequential v.1)) (values "LISTENSEQUENTIALPACKET" section)
            ++ map (λ v. (v.0, SocketKind.fifo v.1)) (values "LISTENFIFO" section)))

kinds_of-map :
    (kind : String → SocketKind) (vec : List (ℕ × String))
    → kinds_of kind (some vec) ≡ map (λ v. (v.0, kind v.1)) vec
unfolding kinds_of
kinds_of-map kind [] = refl
kinds_of-map kind ((n, value) ∷ vec) = ap (λ r. (n, kind value) ∷ r) (kinds_of-map kind vec)

kinds_of-get :
    (kind : String → SocketKind) (setting : String) (section : ParsedSection)
    → kinds_of kind (get setting section) ≡ map (λ v. (v.0, kind v.1)) (values setting section)
unfolding kinds_of get
kinds_of-get kind setting [] = refl
kinds_of-get kind setting ((name, vec) ∷ section) = elim (Bool-cases (name == setting)) [
  | inl same ↦ rw same (kinds_of-map kind vec)
  | inr other ↦ rw other (kinds_of-get kind setting section)
]

all_kinds-listed : (section : ParsedSection) → all_kinds section ≡ listed section
unfolding all_kinds
all_kinds-listed section =
    rw
      (
        kinds_of-get SocketKind.stream "LISTENSTREAM" section,
        kinds_of-get SocketKind.datagram "LISTENDATAGRAM" section,
        kinds_of-get SocketKind.sequential "LISTENSEQUENTIALPACKET" section,
        kinds_of-get SocketKind.fifo "LISTENFIFO" section,
      )
      refl

-- The sockets of a section are those that its four settings list, each once for each value and of the kind of its
-- setting, in the order of the numbers of their entries, whatever the setting that each comes from.
pub socket_kinds-IsOrdered :
    (section : ParsedSection)
    → IsOrdered (socket_kinds section) × Perm (socket_kinds section) (listed section)
unfolding socket_kinds
socket_kinds-IsOrdered section = (
  sort_by_number-IsOrdered (all_kinds section),
  subst (Perm (socket_kinds section)) (all_kinds-listed section)
      (sort_by_number-Perm (all_kinds section)),
)
