-- ===== src/Routes/Vaults/Owner.antt =====

