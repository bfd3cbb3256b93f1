-- ===== src/Storage/Download.antt =====
-- What was uploaded is downloaded.
use relationship_os.Db.Session.{Session}
use relationship_os.Auth.Token.{Auth}
