-- ===== src/Vmm/Result.antt =====
-- What `vmm_map` and `vmm_unmap` do to the translation of every address (kernel/mm/vmm.c).
use matryoshka_os.Prelude.{
  ℕ, ◌+◌, ◌-◌, ◌*◌, ◌/◌, ◌%◌, ◌^◌, ◌<◌, ◌≡◌, refl, ap, ◌∙◌, true, arith, ◌==◌, ltb, if◌then◌else◌,
}
use matryoshka_os.Vmm.{
  Vmm, get_physical, map, unmap, map_in_table, pte_of, set_pte, pd_index, is_present,
}
use matryoshka_os.Vmm.Entry.{pd_index_lem, is_present-odd}
use matryoshka_os.Vmm.Walk.{HasWords, pde_for, entry_place, physical, pte_of_lem}
use matryoshka_os.Vmm.Map.{
  AreApart, EntrySet, EntrySet-get_physical, map_in_table-EntrySet, cleared-EntrySet, new_entry,
}

EntrySet-AreApart : (s s' : Vmm) (va entry : ℕ) → AreApart s → EntrySet s va entry s' → AreApart s'
EntrySet-AreApart s s' va entry apart t i j p q e =
    apart i j (omega (arith, p, t.presence i)) (omega (arith, q, t.presence j))
      (omega (arith, e, t.tables i, t.tables j))

map-map_in_table :
    (s : Vmm) (va pa flags : ℕ)
    → va < 2 ^ 32
    → pde_for s va % 2 ≡ 1
    → map s va pa flags ≡ (true, map_in_table s va pa flags)
unfolding map
map-map_in_table s va pa flags lt there =
    let shown : is_present (s.page_directory (pd_index va)) ≡ true =
      is_present-odd (s.page_directory (pd_index va))
        (ap (λ (i : ℕ). s.page_directory i % 2) (pd_index_lem va lt) ∙ there) in
    rw shown refl

-- The statistics count one page less.
unmapped : Vmm → ℕ → Vmm
unmapped s va = record (set_pte s va 0) {
  mapped_pages = if ltb 0 s.mapped_pages then s.mapped_pages - 1 else s.mapped_pages;
}

unmap-unmapped :
    (s : Vmm) (va : ℕ)
    → HasWords s
    → va < 2 ^ 32
    → pde_for s va % 2 ≡ 1
    → s.word (entry_place (pde_for s va) va) % 2 ≡ 1
    → unmap s va ≡ (true, unmapped s va)
unfolding unmap unmapped
unmap-unmapped s va w lt there mapped =
    let shown : is_present (s.page_directory (pd_index va)) ≡ true =
      is_present-odd (s.page_directory (pd_index va))
        (ap (λ (i : ℕ). s.page_directory i % 2) (pd_index_lem va lt) ∙ there) in
    let entry : is_present (pte_of s va) ≡ true =
      is_present-odd (pte_of s va) (ap (λ (e : ℕ). e % 2) (pte_of_lem s va w lt) ∙ mapped) in
    rw (shown, entry) refl

-- `vmm_map` of a page, with the present flag, where the page's table is there and no two present
-- directory entries share a table (addresses and words have 32 bits), succeeds. From then on each
-- address of the page translates to the same offset in the physical page, every other address
-- translates as before, and the tables are still apart.
pub map_lem :
    (s : Vmm) (va pa flags : ℕ)
    → HasWords s
    → AreApart s
    → va < 2 ^ 32
    → pa < 2 ^ 32
    → flags % 2 ≡ 1
    → pde_for s va % 2 ≡ 1
    → (s' : Vmm) × ((map s va pa flags ≡ (true, s'))
        × (HasWords s'
            × (AreApart s'
                × ((x : ℕ) (lt : x < 2 ^ 32)
                    → get_physical s' x ≡ (
                        if x / 4096 == va / 4096
                        then pa / 4096 * 4096 + x % 4096
                        else get_physical s x)))))
map_lem s va pa flags w apart lt lt' present there =
    let t : EntrySet s va (new_entry pa flags) (map_in_table s va pa flags) =
      map_in_table-EntrySet s va pa flags w lt lt' in
    (
      map_in_table s va pa flags,
      (
        map_there,
        (
          t.has_words,
          (
            EntrySet-AreApart s _ va (new_entry pa flags) apart t,
            λ x small.
                EntrySet-get_physical s _ va (new_entry pa flags) x w apart t lt small there
                ∙ ap (λ (y : ℕ). if x / 4096 == va / 4096 then y else get_physical s x)
                    (translated x),
          ),
        ),
      ),
    )
  where
    map_there : map s va pa flags ≡ (true, map_in_table s va pa flags)
    map_there = map-map_in_table s va pa flags lt there

    translated :
        (x : ℕ) → physical (pde_for s va) (new_entry pa flags) x ≡ pa / 4096 * 4096 + x % 4096
    translated x = ground (arith, there, present)

-- `vmm_unmap` of an address whose page is mapped, under the same conditions, succeeds. From then on
-- no address of the page translates (the result is 0), every other address translates as before,
-- and the tables are still apart.
pub unmap_lem :
    (s : Vmm) (va : ℕ)
    → HasWords s
    → AreApart s
    → va < 2 ^ 32
    → pde_for s va % 2 ≡ 1
    → s.word (entry_place (pde_for s va) va) % 2 ≡ 1
    → (s' : Vmm) × ((unmap s va ≡ (true, s'))
        × (HasWords s'
            × (AreApart s'
                × ((x : ℕ) (lt : x < 2 ^ 32)
                    → get_physical s' x
                      ≡ (if x / 4096 == va / 4096 then 0 else get_physical s x)))))
unfolding unmapped
unmap_lem s va w apart lt there mapped =
    let t : EntrySet s va 0 (unmapped s va) = cleared-EntrySet s va 0 0 w lt (omega arith) _ in
    (
      unmapped s va,
      (
        unmap-unmapped s va w lt there mapped,
        (
          t.has_words,
          (
            EntrySet-AreApart s _ va 0 apart t,
            λ x small.
                EntrySet-get_physical s _ va 0 x w apart t lt small there
                ∙ ap (λ (y : ℕ). if x / 4096 == va / 4096 then y else get_physical s x) (nothing x),
          ),
        ),
      ),
    )
  where
    nothing : (x : ℕ) → physical (pde_for s va) 0 x ≡ 0
    nothing x = ground arith
