-- ===== src/Transport/Devices/Order.antt =====
-- `findBulkEndpoints` does not depend on the order in which Go ranges over a map.
use remote_mfi.Prelude.{
  ℕ, ◌≡◌, ◌≢◌, refl, sym, ap, ap₂, subst, ◌∙◌, List, [], ◌∷◌, ◌==◌, if◌then◌else◌,
}
use native.Mathlib.Omega.{arith}
use mathlib.Core.List.{Perm, Permᴰ}
use mathlib.Core.Logic.{∥∥₁_elim}
use remote_mfi.Transport.Devices.{
  ConfigDesc, Configs, config_at, config_numbers, insert_int, sort_ints, first_of,
  search_interfaces, search_configs, find_bulk_endpoints,
}

-- No key stands twice.
abbrev HasNot : ℕ → Configs → Type 0
HasNot number [] = Unit
HasNot number ((key, config) ∷ configs) = (number ≢ key) × HasNot number configs

abbrev pub IsMap : Configs → Type 0
IsMap [] = Unit
IsMap ((key, config) ∷ configs) = HasNot key configs × IsMap configs

insert_int_comm :
    (a b : ℕ) (ns : List ℕ) → insert_int a (insert_int b ns) ≡ insert_int b (insert_int a ns)
unfolding insert_int
insert_int_comm a b [] = ground arith
insert_int_comm a b (n ∷ ns) = ground (arith, insert_int_comm a b ns)

sort_ints-perm :
    {c d : Configs} → Permᴰ c d → sort_ints (config_numbers c) ≡ sort_ints (config_numbers d)
unfolding sort_ints config_numbers
sort_ints-perm Permᴰ.nil = refl
sort_ints-perm (Permᴰ.cons e p) = ap₂ insert_int (ap (λ x. x.0) e) (sort_ints-perm p)
sort_ints-perm (Permᴰ.swap {a = a} {b = b} {l = l} e f) =
    insert_int_comm a.0 b.0 (sort_ints (config_numbers l))
    ∙ ap₂ insert_int (ap (λ x. x.0) f) (ap (λ x. insert_int x.0 (sort_ints (config_numbers l))) e)
sort_ints-perm (Permᴰ.trans p q) = sort_ints-perm p ∙ sort_ints-perm q

HasNot-perm : (n : ℕ) {c d : Configs} → Permᴰ c d → HasNot n c → HasNot n d
HasNot-perm n Permᴰ.nil h = h
HasNot-perm n (Permᴰ.cons e p) h = (subst (λ x. n ≢ x.0) e h.0, HasNot-perm n p h.1)
HasNot-perm n (Permᴰ.swap e f) h =
    (subst (λ x. n ≢ x.0) f h.1.0, (subst (λ x. n ≢ x.0) e h.0, h.1.1))
HasNot-perm n (Permᴰ.trans p q) h = HasNot-perm n q (HasNot-perm n p h)

IsMap-perm : {c d : Configs} → Permᴰ c d → IsMap c → IsMap d
IsMap-perm Permᴰ.nil h = h
IsMap-perm (Permᴰ.cons {l₂ = l₂} e p) h =
    (subst (λ x. HasNot x.0 l₂) e (HasNot-perm _ p h.0), IsMap-perm p h.1)
IsMap-perm (Permᴰ.swap {l = l} e f) h = (
  (λ k. h.0.0 (ap (λ x. x.0) e ∙ sym k ∙ sym (ap (λ x. x.0) f)), subst (λ x. HasNot x.0 l) f h.1.0),
  (subst (λ x. HasNot x.0 l) e h.0.1, h.1.1),
)
IsMap-perm (Permᴰ.trans p q) h = IsMap-perm q (IsMap-perm p h)

exchange :
    (n : ℕ) (a b : ℕ × ConfigDesc) (rest : ConfigDesc)
    → a.0 ≢ b.0
    → (if a.0 == n then a.1 else if b.0 == n then b.1 else rest)
      ≡ (if b.0 == n then b.1 else if a.0 == n then a.1 else rest)
exchange n a b rest h = ground arith

config_at-perm : (n : ℕ) {c d : Configs} → Permᴰ c d → IsMap c → config_at n c ≡ config_at n d
unfolding config_at
config_at-perm n Permᴰ.nil h = refl
config_at-perm n (Permᴰ.cons {a = a} {l₂ = l₂} e p) h =
    ap (λ x. if a.0 == n then a.1 else x) (config_at-perm n p h.1)
    ∙ ap (λ x. if x.0 == n then x.1 else config_at n l₂) e
config_at-perm n (Permᴰ.swap {a = a} {b = b} {l = l} e f) h =
    exchange n a b (config_at n l) h.0.0
    ∙ ap₂ (λ x y. if x.0 == n then x.1 else if y.0 == n then y.1 else config_at n l) f e
config_at-perm n (Permᴰ.trans p q) h = config_at-perm n p h ∙ config_at-perm n q (IsMap-perm p h)

search_configs-perm :
    {c d : Configs} (numbers : List ℕ)
    → Permᴰ c d
    → IsMap c
    → search_configs c numbers ≡ search_configs d numbers
unfolding search_configs
search_configs-perm [] p h = refl
search_configs-perm {d = d} (n ∷ numbers) p h =
    ap₂ (λ config rest. first_of (search_interfaces n config) rest) (config_at-perm n p h)
      (search_configs-perm numbers p h)

find_bulk_endpoints-permᴰ :
    {c d : Configs} → Permᴰ c d → IsMap c → find_bulk_endpoints c ≡ find_bulk_endpoints d
unfolding find_bulk_endpoints
find_bulk_endpoints-permᴰ {c = c} {d = d} p h =
    search_configs-perm (sort_ints (config_numbers c)) p h
    ∙ ap (search_configs d) (sort_ints-perm p)

-- What `findBulkEndpoints` chooses does not depend on the order in which a range over the map of
-- the configurations comes upon them.
pub find_bulk_endpoints-perm :
    {c d : Configs} → Perm c d → IsMap c → find_bulk_endpoints c ≡ find_bulk_endpoints d
find_bulk_endpoints-perm {c = c} {d = d} p h =
    ∥∥₁_elim p (hlevel) (λ q. find_bulk_endpoints-permᴰ q h)
