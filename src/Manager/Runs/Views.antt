-- ===== src/Manager/Runs/Views.antt =====
-- What is listed, what is taken and what is known, in every state of the manager.
