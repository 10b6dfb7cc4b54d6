-- ===== src/Tests/Maps.antt =====
-- Lines of /proc/<pid>/maps.
use my_dbg.Base.{◌≡◌, refl, [], ◌∷◌, ◌++◌, none, some, codes, arith}
use my_dbg.Printing.{digits}
use my_dbg.Format.{
  scan_digits, digit_value, skip_space, to_ulong, scan_sign, scan_zu, scan_prefix, scan_zx,
}
use my_dbg.MemMappings.{scan_line, scan_width, scan_char, scan_c, word}
use my_dbg.MemMappings.Lines.{blanks, maps_line, Printable, scan_line-maps_line}

sample : Printable 8 0x40_0000 8 0x40_1000 b'r' 0x1000 8 2 173521 (codes "/bin/x")
sample = record {
  start_places = omega arith;
  start_fits = refl;
  start_lt = omega arith;
  end_places = omega arith;
  end_fits = refl;
  end_lt = omega arith;
  letter_ok = refl;
  offset_lt = omega arith;
  major_lt = omega arith;
  minor_lt = omega arith;
  inode_lt = omega arith;
  name_ok = (refl, (refl, (refl, (refl, (refl, (refl, tt))))));
}

scan_line-maps_line_example :
    scan_line (
      maps_line 8 0x40_0000 8 0x40_1000 b'r' b'-' b'x' b'p' 0x1000 8 2 173521
        (blanks 3 ++ (codes "/bin/x" ++ 10 ∷ [])))
    ≡ some
        (record { start = 0x40_0000; end = 0x40_1000; offset = 0x1000; objfile = codes "/bin/x" })
scan_line-maps_line_example =
    scan_line-maps_line 8 0x40_0000 8 0x40_1000 b'r' b'-' b'x' b'p' 0x1000 8 2 173521 3
      (codes "/bin/x") sample

sample_line :
    maps_line 8 0x40_0000 8 0x40_1000 b'r' b'-' b'x' b'p' 0x1000 8 2 173521
      (blanks 3 ++ (codes "/bin/x" ++ 10 ∷ []))
    ≡ codes "00400000-00401000 r-xp 00001000 08:02 173521    /bin/x\n"
unfolding digits
sample_line = refl

-- The device of an NVMe disk, with a number of three digits
nvme_line : scan_line (codes "00400000-00401000 r-xp 00000000 103:02 173521 /bin/x\n") ≡ none
unfolding scan_line scan_width scan_char scan_c word scan_digits digit_value skip_space to_ulong
    scan_sign scan_zu scan_prefix scan_zx
nvme_line = refl
