-- ===== src/Ctx/Watch/Sample/Probing.antt =====
-- x
