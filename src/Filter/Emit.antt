-- ===== src/Filter/Emit.antt =====
-- filter.go: the instructions that every builder emits.
use go_afxdp.Prelude.{ℕ, ◌+◌, List, [], ◌∷◌, ◌++◌}
use go_afxdp.Ebpf.{
  Reg, r2, r3, r6, r7, r9, Target, Tag, entry, inner, byte, half, mov_reg, add_imm, and_imm,
  load_mem, jne_imm, jgt_reg, Instr, ins, with_symbol, Endian,
}
use go_afxdp.Filter.{
  off_ether_type, off_ipv4_ver_ihl, off_ipv4_frag_off, ipv4_ver_ihl5, ipv4_frag_off_mask,
  ether_type_vlan, netshort,
}

unfoldable pub with_entry : Target → List Instr → List Instr
with_entry e [] = []
with_entry e (i ∷ is) = with_symbol (entry e) i ∷ is

unfoldable pub bounds_from : Reg → ℕ → Target → List Instr
bounds_from base n next =
    ins (mov_reg r2 base) ∷ ins (add_imm r2 n) ∷ ins (jgt_reg r2 r6 (entry next)) ∷ []

unfoldable pub ipv4_fixed_l4_guard : Endian → Target → List Instr
ipv4_fixed_l4_guard e next =
    ins (load_mem r3 r9 off_ipv4_ver_ihl byte)
    ∷ ins (jne_imm r3 ipv4_ver_ihl5 (entry next))
    ∷ ins (load_mem r3 r9 off_ipv4_frag_off half)
    ∷ ins (and_imm r3 (netshort e ipv4_frag_off_mask))
    ∷ ins (jne_imm r3 0 (entry next))
    ∷ []

-- `tag` is what the label argument and "_notag" append to the block's entry symbol.
unfoldable pub l3_base : Endian → Target → Tag → Target → List Instr
unfolding bounds_from
l3_base e block tag next =
    ins (mov_reg r9 r7)
    ∷ (bounds_from r9 (off_ether_type + 2) next
        ++ (ins (load_mem r3 r9 off_ether_type half)
            ∷ ins (jne_imm r3 (netshort e ether_type_vlan) (inner block tag))
            ∷ ins (add_imm r9 4)
            ∷ with_symbol (inner block tag) (ins (mov_reg r9 r9))
            ∷ []))
