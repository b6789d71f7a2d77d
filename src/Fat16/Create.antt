-- ===== src/Fat16/Create.antt =====
-- A new FAT16 disk in memory.
use calm_os.Base.{ℕ, ◌-◌, ◌*◌, ◌%◌, ◌^◌, Bool, List, [], ◌∷◌, ◌++◌, Option, replicate}
use calm_os.Disk.{Image, mem_disk, new_mem_disk}
use calm_os.Fat16.Clusters.{uint16_bytes, fat_format}

-- The boot block of a new disk with a number of sectors, as it is packed
unfoldable pub new_bios_block : ℕ → List ℕ
new_bios_block sector_count =
    0xeb
    ∷ 0x3c
    ∷ 0x90
    ∷ b'F'
    ∷ b'A'
    ∷ b'T'
    ∷ b' '
    ∷ b'T'
    ∷ b'E'
    ∷ b'S'
    ∷ b'T'
    ∷ (uint16_bytes 512
        ++ 1
          ∷ (uint16_bytes 4
              ++ 2
                ∷ (uint16_bytes 512
                    ++ (uint16_bytes sector_count
                        ++ 0xf8
                          ∷ (uint16_bytes 20
                              ++ (uint16_bytes 63
                                  ++ (uint16_bytes 255
                                      ++ (replicate 8 0
                                          ++ 0x80 ∷ 0 ∷ 0x29 ∷ 0xa3 ∷ 0xa2 ∷ 0xa1 ∷ 0xa0 ∷ b'V'
                                            ∷ b'o' ∷ b'l' ∷ b'u' ∷ b'm' ∷ b'e' ∷ b' ' ∷ b'N' ∷ b'a'
                                            ∷ b'm' ∷ b'e' ∷ b'F' ∷ b'A' ∷ b'T' ∷ b'1' ∷ b'6' ∷ b' '
                                            ∷ b' ' ∷ b' ' ∷ []))))))))

-- The boot sector: the block, zeros, and the signature
unfoldable pub new_boot_sector : ℕ → List ℕ
unfolding new_bios_block
new_boot_sector sector_count =
    new_bios_block sector_count ++ (replicate (0x200 - 62 - 2) 0 ++ 0x55 ∷ 0xaa ∷ [])

unfoldable pub new_fat16 : ℕ → Image → Option (Bool × Image)
unfolding new_boot_sector
new_fat16 sector_count m =
    fat_format mem_disk (new_boot_sector sector_count)
      (new_mem_disk (sector_count % 2 ^ 16 * 512) 0xe5 m)
