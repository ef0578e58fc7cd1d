-- ===== src/Gdt/Tests.antt =====
-- A run of the segment table from a table of no use.
use matryoshka_os.Prelude.{◌≡◌, refl}
use matryoshka_os.Gdt.{Gdt, GdtEntry, init, tss_set_esp0}

abbrev blank : GdtEntry
blank = record {
  limit_low = 0;
  base_low = 0;
  base_middle = 0;
  access = 0;
  granularity = 0;
  base_high = 0;
}

abbrev blank_table : Gdt
blank_table = record {
  gdt = λ i. blank;
  tss = record { esp0 = 7; ss0 = 7; iomap_base = 7; others = λ i. 7 };
  tss_at = 0x123456;
}

takes_stack : (tss_set_esp0 (init blank_table) 0x9000).tss.esp0 ≡ 0x9000
unfolding tss_set_esp0
takes_stack = refl
