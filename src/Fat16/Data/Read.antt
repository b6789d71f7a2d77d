-- ===== src/Fat16/Data/Read.antt =====
-- Lemmas on `fat_read_data` of kernel/filesystem/fat16.c.
use calm_os.Base.{
  ℕ, zero, suc, ◌+◌, ◌*◌, ◌^◌, ◌≤◌, ◌<◌, ◌≡◌, ◌≢◌, ◌==◌, ◌&&◌, true, false, not, List, [], ◌∷◌,
  ◌++◌, some, refl, arith, ap, ◌∙◌, sym, subst, length, take, drop, ltb, length-take, length-drop,
  length-append, take-append-drop, append_nil, append_assoc,
}
use calm_os.Disk.{Image, Disk, IsDisk, disk_read, mem_disk_read}
use calm_os.Fat16.Layout.{with_bpb, wrap, bytes_per_cluster, fat_get_cluster_addr}
use calm_os.Fat16.Clusters.{fat_get_cluster_value}
use calm_os.Fat16.Data.{copy_start, copy_count, read_chain, fat_read_data}
use calm_os.Fat16.Data.Chain.{Chain}
use calm_os.Fat16.Data.Area.{Stored, fat_get_cluster_addr_bound}

pub slots_more : (rs n z w : ℕ) → rs + suc n * z < w → rs + z + n * z < w
slots_more rs n z w h = grind arith

module _ (d : Disk) (laws : IsDisk d) (end : ℕ) (m : Image) where
  abbrev size : ℕ
  size = bytes_per_cluster (with_bpb d m)

  -- The bytes that one round copies, when reading starts at the start of the file
  round_bytes :
      (c read_size copied : ℕ) (bs : List ℕ)
      → mem_disk_read (fat_get_cluster_addr (with_bpb d m) c) (length (take size bs)) m
        ≡ take size bs
      → disk_read d
          (wrap (fat_get_cluster_addr (with_bpb d m) c + copy_start read_size 0))
          (copy_count size (copied + length bs) copied)
          m
        ≡ take size bs
  round_bytes c rs copied bs s =
      let b = with_bpb d m in
      let a : wrap (fat_get_cluster_addr b c + copy_start rs 0) ≡ fat_get_cluster_addr b c =
        ground (arith, fat_get_cluster_addr_bound b c) in
      let n : copy_count size (copied + length bs) copied ≡ length (take size bs) =
        ground (arith, length-take size bs) in
      laws.read (wrap (fat_get_cluster_addr b c + copy_start rs 0))
        (copy_count size (copied + length bs) copied) m
      ∙ (λ i. mem_disk_read (a i) (n i) m)
      ∙ s

  read_chain_lem :
      (xs bs out : List ℕ) (fuel rs c len : ℕ)
      → 0 < size
      → Chain d end m c xs
      → Stored (with_bpb d m) m xs bs
      → length xs ≤ fuel
      → rs + length xs * size < 2 ^ 32
      → len ≡ length out + length bs
      → read_chain d size fuel end len 0 rs c out m ≡ some (out ++ bs)
  unfolding read_chain
  read_chain_lem [] bs out zero rs c len z p s f w e =
      let at : (c == end) ≡ true = ground arith in
      rw (read_chain, at) (ap some (sym (append_nil out) ∙ ap (λ t. out ++ t) (sym s)))
  read_chain_lem [] bs out (suc fuel) rs c len z p s f w e =
      let at : (c == end) ≡ true = ground arith in
      rw (read_chain, at) (ap some (sym (append_nil out) ∙ ap (λ t. out ++ t) (sym s)))
  read_chain_lem (x ∷ xs) [] out zero rs c len z p s f w e = absurd (omega arith)
  read_chain_lem (x ∷ xs) [] out (suc fuel) rs c len z p s f w e =
      let stop : (not (c == end) && ltb (length out) len) ≡ false = ground arith in
      rw (read_chain, stop) (ap some (sym (append_nil out)))
  read_chain_lem (x ∷ xs) (b ∷ bs) out zero rs c len z p s f w e = absurd (omega arith)
  read_chain_lem (x ∷ xs) (b ∷ bs) out (suc fuel) rs c len z (q, ne, n, v, p) (r, s) f w e =
      let all = b ∷ bs in
      let piece = take size all in
      let own =
        subst (λ y. mem_disk_read (fat_get_cluster_addr (with_bpb d m) y) (length piece) m ≡ piece)
          (sym q) r in
      let more = slots_more rs (length xs) size (2 ^ 32) w in
      let next : wrap (rs + size) ≡ rs + size = omega (arith, more) in
      let copied : disk_read d (wrap (fat_get_cluster_addr (with_bpb d m) c + copy_start rs 0))
            (copy_count size len (length out)) m
          ≡ piece =
        (λ i.
          disk_read d (wrap (fat_get_cluster_addr (with_bpb d m) c + copy_start rs 0))
            (copy_count size (e i) (length out)) m)
        ∙ round_bytes c rs (length out) all own in
      let here : ltb 0 (rs + size) ≡ true = ground arith in
      let go : (not (c == end) && ltb (length out) len) ≡ true = ground arith in
      let total : len ≡ length (out ++ piece) + length (drop size all) =
        ground (arith, length-append out piece, length-take size all, length-drop size all) in
      rw (read_chain, go, v, next, here)
        (ap (λ t. read_chain d size fuel end len 0 (rs + size) n (out ++ t) m) copied
          ∙ read_chain_lem xs (drop size all) (out ++ piece) fuel (rs + size) n len z p s
              (omega arith) more total
          ∙ ap some (
              append_assoc out piece (drop size all)
              ∙ ap (λ t. out ++ t) (take-append-drop size all)))

  -- Data that are stored on a chain of clusters are read back from its first one: `fat_read_data` of as
  -- many bytes from the start of the file on ends, with as many rounds as the chain has clusters,
  -- fails no assertion, and returns them.
  pub fat_read_data-Stored :
      (xs bs : List ℕ) (fuel c : ℕ)
      → 0 < size
      → c ≢ 0
      → fat_get_cluster_value d 1 m ≡ some end
      → Chain d end m c xs
      → Stored (with_bpb d m) m xs bs
      → length xs ≤ fuel
      → length xs * size < 2 ^ 32
      → fat_read_data d fuel c (length bs) 0 m ≡ some bs
  unfolding fat_read_data
  fat_read_data-Stored xs [] fuel c z nz e p s f w =
      let used : (c == 0) ≡ false = ground arith in rw used refl
  fat_read_data-Stored xs (b ∷ bs) fuel c z nz e p s f w =
      let used : (c == 0) ≡ false = ground arith in
      let some_len : (length (b ∷ bs) == 0) ≡ false = ground arith in
      rw (fat_read_data, used, some_len, e)
        (read_chain_lem xs (b ∷ bs) [] fuel 0 c (length (b ∷ bs)) z p s f (omega arith)
          (omega arith))
