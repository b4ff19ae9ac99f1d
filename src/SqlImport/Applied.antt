-- ===== src/SqlImport/Applied.antt =====
-- What src/services/sql_import_service.ts leaves in the database.
