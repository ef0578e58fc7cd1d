-- ===== src/Vmm/Map.antt =====
-- `vmm_map`, where the page table is there, `vmm_unmap` and `vmm_set_user` (kernel/mm/vmm.c).
use native.Mathlib.Decide.{ℕ_discrete}
use matryoshka_os.Prelude.{
  ℕ, ◌+◌, ◌*◌, ◌/◌, ◌%◌, ◌^◌, ◌<◌, ◌≡◌, ◌≢◌, refl, sym, ap, ◌∙◌, Bool, true, false, not, arith,
  ◌==◌, if◌then◌else◌, subst, ==_ne, ==_eq, update, bit_and, bit_or,
}
use matryoshka_os.Prelude.Bits.{bit_or-lt, bit_or_step}
use matryoshka_os.Vmm.{
  Vmm, get_physical, pd_index, pt_index, slot, pte_addr_mask, pte_user, map_in_table, set_pde,
  set_pte,
}
use matryoshka_os.Vmm.Entry.{pd_index_lem, entry_lem, div-flags}
use matryoshka_os.Vmm.Walk.{HasWords, pde_for, entry_place, physical, get_physical_lem, slot_lem}

-- Two directory entries that are present name two different page tables.
abbrev pub AreApart : Vmm → Type 0
AreApart s =
    (i j : ℕ)
    → s.page_directory i % 2 ≡ 1
    → s.page_directory j % 2 ≡ 1
    → s.page_directory i / 4096 ≡ s.page_directory j / 4096
    → i ≡ j

-- The entry of a page that `vmm_map` writes.
abbrev pub new_entry : ℕ → ℕ → ℕ
new_entry pa flags = pa / 4096 * 4096 + flags % 4096

-- `s'` is `s` with the entry of the page of `va` set to `entry`.
pub record EntrySet (s : Vmm) (va entry : ℕ) (s' : Vmm) : Type 0 where
  pub tables : (i : ℕ) → s'.page_directory i / 4096 ≡ s.page_directory i / 4096
  pub presence : (i : ℕ) → s'.page_directory i % 2 ≡ s.page_directory i % 2
  pub has_words : HasWords s'
  pub memory : (a : ℕ) → s'.word a ≡ update s.word (entry_place (pde_for s va) va) entry a

physical_cong : (p q e f x : ℕ) → p % 2 ≡ q % 2 → e ≡ f → physical p e x ≡ physical q f x
physical_cong p q e f x same_presence same = rw (same_presence, same) refl

update_hit : (f : ℕ → ℕ) (p v q : ℕ) → p ≡ q → update f p v q ≡ v
update_hit f p v q e = rw (==_eq p q e) refl

update_miss : (f : ℕ → ℕ) (p v q : ℕ) → p ≢ q → update f p v q ≡ f q
update_miss f p v q ne = rw (==_ne p q ne) refl

-- What the pages map to after an entry was set.
pub EntrySet-get_physical :
    (s s' : Vmm) (va entry x : ℕ)
    → HasWords s
    → AreApart s
    → EntrySet s va entry s'
    → va < 2 ^ 32
    → x < 2 ^ 32
    → pde_for s va % 2 ≡ 1
    → get_physical s' x
      ≡ (if x / 4096 == va / 4096 then physical (pde_for s va) entry x else get_physical s x)
EntrySet-get_physical s s' va entry x w apart t lt lt' here =
    get_physical_lem s' x t.has_words lt' ∙ elim (ℕ_discrete (x / 4096) (va / 4096)) [
      | yes e ↦ rw (==_eq _ _ e) (
          physical_cong (pde_for s' x) (pde_for s va) (s'.word (entry_place (pde_for s' x) x)) entry
            x (t.presence (x / 2 ^ 22) ∙ ap (λ (i : ℕ). s.page_directory i % 2) (same_pde e))
            (t.memory (entry_place (pde_for s' x) x)
              ∙ update_hit s.word (entry_place (pde_for s va) va) entry
                  (entry_place (pde_for s' x) x) (same_place e)))
      | no ne ↦ rw (==_ne _ _ ne) (elsewhere ne ∙ sym (get_physical_lem s x w lt'))
    ]
  where
    same_pde : x / 4096 ≡ va / 4096 → x / 2 ^ 22 ≡ va / 2 ^ 22
    same_pde e = omega arith

    same_place : x / 4096 ≡ va / 4096 → entry_place (pde_for s va) va ≡ entry_place (pde_for s' x) x
    same_place e =
        omega
          (arith, e, t.tables (x / 2 ^ 22), ap (λ (i : ℕ). s.page_directory i / 4096) (same_pde e))

    unmoved : entry_place (pde_for s' x) x ≡ entry_place (pde_for s x) x
    unmoved = omega (arith, t.tables (x / 2 ^ 22))

    places_differ :
        x / 4096 ≢ va / 4096
        → pde_for s x % 2 ≡ 1
        → entry_place (pde_for s va) va ≢ entry_place (pde_for s' x) x
    places_differ ne present e = ne (
        omega (
          arith,
          e,
          t.tables (x / 2 ^ 22),
          apart (va / 2 ^ 22) (x / 2 ^ 22) here present (omega (arith, e, t.tables (x / 2 ^ 22))),
        ))

    elsewhere :
        x / 4096 ≢ va / 4096
        → physical (pde_for s' x) (s'.word (entry_place (pde_for s' x) x)) x
          ≡ physical (pde_for s x) (s.word (entry_place (pde_for s x) x)) x
    elsewhere ne = elim (ℕ_discrete (pde_for s x % 2) 1) [
      | yes present ↦
          physical_cong (pde_for s' x) (pde_for s x) (s'.word (entry_place (pde_for s' x) x))
            (s.word (entry_place (pde_for s x) x)) x (t.presence (x / 2 ^ 22))
            (t.memory (entry_place (pde_for s' x) x)
              ∙ update_miss s.word (entry_place (pde_for s va) va) entry
                  (entry_place (pde_for s' x) x) (places_differ ne present)
              ∙ ap s.word unmoved)
      | no absent ↦ ground (arith, t.presence (x / 2 ^ 22))
    ]

-- The directory after `vmm_map` sets PTE_USER in it, or not.
module _ (s : Vmm) (va pa flags : ℕ) (w : HasWords s) (lt : va < 2 ^ 32) (lt' : pa < 2 ^ 32) where
  opened : Bool → Vmm
  opened user =
      if user then set_pde s (pd_index va) (bit_or (s.page_directory (pd_index va)) pte_user) else s

  opened_tables :
      (user : Bool) (i : ℕ) → (opened user).page_directory i / 4096 ≡ s.page_directory i / 4096
  unfolding opened set_pde
  opened_tables true i = elim (ℕ_discrete (pd_index va) i) [
    | yes e ↦ rw (==_eq _ _ e) (
        div-flags (s.page_directory (pd_index va)) 4 (omega arith)
        ∙ ap (λ (j : ℕ). s.page_directory j / 4096) e)
    | no ne ↦ rw (==_ne _ _ ne) refl
  ]
  opened_tables false i = refl

  opened_presence :
      (user : Bool) (i : ℕ) → (opened user).page_directory i % 2 ≡ s.page_directory i % 2
  unfolding opened set_pde
  opened_presence true i = elim (ℕ_discrete (pd_index va) i) [
    | yes e ↦ rw (==_eq _ _ e) (
        ground (arith, bit_or_step (s.page_directory (pd_index va)) 4)
        ∙ ap (λ (j : ℕ). s.page_directory j % 2) e)
    | no ne ↦ rw (==_ne _ _ ne) refl
  ]
  opened_presence false i = refl

  opened-HasWords : (user : Bool) → HasWords (opened user)
  unfolding opened set_pde
  opened-HasWords true = record {
    entries = λ i. elim (ℕ_discrete (pd_index va) i) [
      | yes e ↦
          rw (==_eq _ _ e) (
            bit_or-lt 32 (s.page_directory (pd_index va)) 4 (w.entries (pd_index va)) (omega arith))
      | no ne ↦ rw (==_ne _ _ ne) (w.entries i)
    ];
    words = w.words;
  }
  opened-HasWords false = w

  opened_memory : (user : Bool) (a : ℕ) → (opened user).word a ≡ s.word a
  unfolding opened set_pde
  opened_memory true a = refl
  opened_memory false a = refl

  set_pte-EntrySet :
      (user : Bool) (entry count : ℕ)
      → entry < 2 ^ 32
      → EntrySet s va entry (record (set_pte (opened user) va entry) { mapped_pages = count })
  unfolding set_pte
  set_pte-EntrySet user entry count small =
      let place : slot ((opened user).page_directory (pd_index va)) (pt_index va)
          ≡ entry_place (pde_for s va) va =
        ap (λ (i : ℕ). slot ((opened user).page_directory i) (pt_index va)) (pd_index_lem va lt)
        ∙ slot_lem ((opened user).page_directory (va / 2 ^ 22)) va
            ((opened-HasWords user).entries (va / 2 ^ 22))
        ∙ omega (arith, opened_tables user (va / 2 ^ 22)) in
      record {
        tables = opened_tables user;
        presence = opened_presence user;
        has_words = record {
          entries = (opened-HasWords user).entries;
          words = λ a.
              elim (ℕ_discrete (slot ((opened user).page_directory (pd_index va)) (pt_index va))
                a) [
                  | yes e ↦ rw (==_eq _ _ e) small
                  | no ne ↦ rw (==_ne _ _ ne) ((opened-HasWords user).words a)
                ];
        };
        memory = λ a. rw place (elim (ℕ_discrete (entry_place (pde_for s va) va) a) [
          | yes e ↦ rw (==_eq _ _ e) refl
          | no ne ↦ rw (==_ne _ _ ne) (opened_memory user a)
        ]);
      }

  pub map_in_table-EntrySet : EntrySet s va (new_entry pa flags) (map_in_table s va pa flags)
  unfolding map_in_table opened
  map_in_table-EntrySet =
      subst (λ (entry : ℕ). EntrySet s va entry (map_in_table s va pa flags))
        (entry_lem pa flags lt')
        (set_pte-EntrySet (not (bit_and flags pte_user == 0)) _ ((s.mapped_pages + 1) % 2 ^ 32)
          small)
    where
      small : bit_or (bit_and pa pte_addr_mask) (bit_and flags 0xFFF) < 2 ^ 32
      small = omega (arith, entry_lem pa flags lt')

  pub cleared-EntrySet :
      (count : ℕ) → EntrySet s va 0 (record (set_pte s va 0) { mapped_pages = count })
  unfolding opened
  cleared-EntrySet count = set_pte-EntrySet false 0 count (omega arith)
